-- ===== src/Leader/Registration/Dialled.antt =====
-- nodes/leaderNode_helper/registration_helper.go with utils/streamHandler.go: the address at which the
-- leader reaches a node that it has registered.
use drb_node.Base.{◌≡◌, refl, sym, ap, ◌∙◌, Bytes, bytes_eq, some, [], ◌∷◌, ◌++◌, codes, some-inj}
use mathlib.Core.List.{append_assoc}
use drb_node.Base.Maps.{get, put, get-put_self}
use drb_node.Crypto.{Ethereum}
use drb_node.Go.Attempt.{value}
use drb_node.Go.File.{entries}
use drb_node.Go.Text.{split}
use drb_node.Go.Text.Split.{IsFree, split-IsFree, split-append}
use drb_node.Utils.Requests.{RegistrationRequest}
use drb_node.Utils.Signature.{verify_signature-canonical}
use drb_node.Utils.Network.{p2p_address}
use drb_node.Leader.State.{NodeInfo, Leader, Setup}
use drb_node.Leader.Registration.{Contract, node_info, register_node}
use drb_node.Leader.Registration.Outcome.{register_node-done}

-- The multiaddress of a stream over TCP and IP of version 4.
unfoldable pub remote_address : Bytes → Bytes → Bytes
remote_address ip port = codes "/ip4/" ++ (ip ++ (codes "/tcp/" ++ port))

remote_parts :
    (ip port : Bytes)
    → IsFree b'/' ip
    → IsFree b'/' port
    → split b'/' (remote_address ip port) ≡ [] ∷ codes "ip4" ∷ ip ∷ codes "tcp" ∷ port ∷ []
unfolding remote_address
remote_parts ip port free_ip free_port =
    split-append b'/' [] _ tt
    ∙ ap (λ parts. [] ∷ parts)
        (split-append b'/' (codes "ip4") _ (refl, (refl, (refl, tt)))
          ∙ ap (λ parts. codes "ip4" ∷ parts)
              (split-append b'/' ip _ free_ip
                ∙ ap (λ parts. ip ∷ parts)
                    (split-append b'/' (codes "tcp") _ (refl, (refl, (refl, tt)))
                      ∙ ap (λ parts. codes "tcp" ∷ parts) (split-IsFree b'/' port free_port))))

node_info-remote_address :
    (ip port peer_id : Bytes)
    → IsFree b'/' ip
    → IsFree b'/' port
    → node_info (remote_address ip port) peer_id
      ≡ some (record { ip = ip; port = port; peer_id = peer_id })
unfolding node_info
node_info-remote_address ip port peer_id free_ip free_port =
    rw (remote_parts ip port free_ip free_port) refl

p2p_address-remote :
    (ip port peer_id : Bytes)
    → p2p_address ip port peer_id ≡ remote_address ip port ++ (codes "/p2p/" ++ peer_id)
unfolding p2p_address remote_address
p2p_address-remote ip port peer_id = simp append_assoc

-- Where a registration that came from the address /ip4/<ip>/tcp/<port> is reported as done, with no
-- slash in either part, the file of registered nodes has a node under the hexadecimal text of the
-- operator's address, by which the leader looks nodes up, and the multiaddress that CreateStream
-- formats from it is that remote address, followed by /p2p/ and the peer identity of the request.
pub register_node-dialled :
    (eth : Ethereum) (setup : Setup) (contract : Contract) (req : RegistrationRequest)
    (ip port : Bytes) (s : Leader)
    → IsFree b'/' ip
    → IsFree b'/' port
    → (register_node eth setup contract (some req) (remote_address ip port) s).0 ≡ value tt
    → let t = (register_node eth setup contract (some req) (remote_address ip port) s).1 in
      let operator = eth.address_hex (eth.hex_to_address req.eoa_address) in
      (info : NodeInfo) × (get operator (entries t.registered_nodes.content) ≡ some info)
      × (p2p_address info.ip info.port info.peer_id
          ≡ remote_address ip port ++ (codes "/p2p/" ++ req.peer_id))
register_node-dialled eth setup contract req ip port s free_ip free_port h =
    let (r, info, same, verified, found, content, _) =
      register_node-done eth setup contract (some req) (remote_address ip port) s h in
    let req_r : req ≡ r = some-inj req r same in
    let operator_of =
      λ (x : RegistrationRequest). eth.address_hex (eth.hex_to_address x.eoa_address) in
    let nodes = entries s.registered_nodes.content in
    let node : NodeInfo = record { ip = ip; port = port; peer_id = r.peer_id } in
    let info_node : node ≡ info =
      some-inj node info
        (sym (node_info-remote_address ip port r.peer_id free_ip free_port) ∙ found) in
    (
      info,
      ap (λ c. get (operator_of req) (entries c)) content
          ∙ ap (λ (x : RegistrationRequest). get (operator_of x) (put r.eoa_address info nodes))
              req_r
          ∙ ap (λ key. get key (put r.eoa_address info nodes))
              (verify_signature-canonical eth r verified)
          ∙ get-put_self r.eoa_address info nodes,
      ap (λ (i : NodeInfo). p2p_address i.ip i.port i.peer_id) (sym info_node)
          ∙ p2p_address-remote ip port r.peer_id
          ∙ ap (λ (x : RegistrationRequest). remote_address ip port ++ (codes "/p2p/" ++ x.peer_id))
              (sym req_r),
    )
