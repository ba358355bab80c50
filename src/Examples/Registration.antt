-- ===== src/Examples/Registration.antt =====
-- nodes/leaderNode_helper/registration_helper.go: a registration on concrete inputs.
use drb_node.Base.{◌≡◌, refl, ◌⊎◌, Bytes, bytes_eq, list_equals, codes, true, some, [], ◌∷◌, ◌++◌}
use drb_node.Base.Maps.{get, put}
use drb_node.Go.Attempt.{value}
use drb_node.Go.File.{holds, entries, read_file, create_file}
use drb_node.Utils.Clients.{abi_loads}
use drb_node.Utils.Requests.{RegistrationRequest}
use drb_node.Utils.Signature.{verify_signature}
use drb_node.Leader.State.{NodeInfo, activates}
use drb_node.Leader.Nodes.{load_registered_nodes, save_registered_nodes}
use drb_node.Leader.Registration.{Contract, node_info, needs_activation, register_node}
use drb_node.Leader.Registration.Activation.{IsDue, IsActivated}
use drb_node.Leader.Registration.Outcome.{register_node-sends, register_node-done}
use drb_node.Leader.Registration.Dialled.{remote_address, register_node-dialled}
use drb_node.Utils.Network.{p2p_address}
use drb_node.Examples.Toy.{toy_ethereum, toy_recover, toy_key_address, toy_digest, checksum}
use drb_node.Examples.Files.{key1, signature1}
use drb_node.Examples.Memory.{empty_leader, setup1}

-- An operator that has deposited enough and is not activated.
abbrev pub contract1 : Contract
contract1 = record {
  activated_operators = some [];
  deposit_amount = λ _. some 100;
  activation_threshold = some 100;
  activation_accepted = λ _. true;
}

abbrev pub registration1 : RegistrationRequest
registration1 = record { eoa_address = key1; signature = signature1; peer_id = codes "QmPeer" }

abbrev pub remote1 : Bytes
remote1 = remote_address (codes "10.0.0.7") (codes "4001")

remote1_node :
    node_info remote1 (codes "QmPeer")
    ≡ some (record { ip = codes "10.0.0.7"; port = codes "4001"; peer_id = codes "QmPeer" })
unfolding node_info remote_address
remote1_node = refl

registration1-sends :
    let t =
      (register_node toy_ethereum setup1 contract1 (some registration1) remote1 empty_leader).1 in
    (t.committed_nodes ≡ [])
    × ((t.outputs ≡ [])
        ⊎ ((req : RegistrationRequest) × (some registration1 ≡ some req)
            × (verify_signature toy_ethereum req ≡ true)
            × IsDue contract1 (toy_ethereum.hex_to_address req.eoa_address)
            × (t.outputs ≡ activates (toy_ethereum.hex_to_address req.eoa_address) ∷ [])))
registration1-sends =
    register_node-sends toy_ethereum setup1 contract1 (some registration1) remote1 empty_leader

registration1_accepted :
    (register_node toy_ethereum setup1 contract1 (some registration1) remote1 empty_leader).0
    ≡ value tt
unfolding remote_address register_node verify_signature load_registered_nodes save_registered_nodes
    read_file create_file needs_activation abi_loads toy_key_address toy_recover toy_digest checksum
    list_equals
registration1_accepted = refl

registration1-done :
    (req : RegistrationRequest) × (info : NodeInfo) × (some registration1 ≡ some req)
    × (verify_signature toy_ethereum req ≡ true)
    × (node_info remote1 req.peer_id ≡ some info)
    × ((register_node toy_ethereum setup1 contract1
          (some registration1)
          remote1
          empty_leader).1.registered_nodes.content
        ≡ holds (put req.eoa_address info (entries empty_leader.registered_nodes.content)))
    × IsActivated contract1
        (toy_ethereum.hex_to_address req.eoa_address)
        setup1
        empty_leader
        (register_node toy_ethereum setup1 contract1 (some registration1) remote1 empty_leader).1
registration1-done =
    register_node-done toy_ethereum setup1 contract1 (some registration1) remote1 empty_leader
      registration1_accepted

node1_dialled :
    let t =
      (register_node toy_ethereum setup1 contract1 (some registration1) remote1 empty_leader).1 in
    let operator =
      toy_ethereum.address_hex (toy_ethereum.hex_to_address registration1.eoa_address) in
    (info : NodeInfo) × (get operator (entries t.registered_nodes.content) ≡ some info)
    × (p2p_address info.ip info.port info.peer_id
        ≡ remote1 ++ (codes "/p2p/" ++ registration1.peer_id))
node1_dialled =
    register_node-dialled toy_ethereum setup1 contract1 registration1 (codes "10.0.0.7")
      (codes "4001") empty_leader (refl, (refl, (refl, (refl, (refl, (refl, (refl, (refl, tt))))))))
      (refl, (refl, (refl, (refl, tt)))) registration1_accepted
