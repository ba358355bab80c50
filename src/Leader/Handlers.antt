-- ===== src/Leader/Handlers.antt =====
-- nodes/leaderNode.go and nodes/leaderNode_helper/secret_value_handler.go: the handlers of the
-- streams, and the rounds that the subgraph reports.
pub mod Reached
pub mod Formed
pub mod Stored
use drb_node.Base.{
  ℕ, Bytes, bytes_eq, Bool, true, false, not, Option, none, some, List, [], ◌∷◌, ◌++◌, ◌==◌, ◌||◌,
  ◌&&◌, if◌then◌else◌, zero32, copy_into,
}
use drb_node.Base.Maps.{Map, get, put}
use drb_node.Crypto.{Ethereum}
use drb_node.Go.File.{JsonFile, Error}
use drb_node.Go.Hex.{encode_to_string}
use drb_node.Go.Number.{ℤ, pos, ParsedInt, int_value, syntax_error, range_error, parse_int}
use drb_node.Utils.Requests.{CommitRequest, CosRequest, Request, SecretValueRequest}
use drb_node.Utils.Signature.{verify_signature}
use drb_node.Utils.LeaderNodeData.{
  LeaderCommitData, new_commit_data, Loaded, loaded, load_failed, load_leader_commit_data,
  save_leader_commit_data,
}
use drb_node.CommitReveal.Commit.{keccak256}
use drb_node.CommitReveal.RevealOrder.{RevealSort, RevealError, Files, determine_reveal_order}
use drb_node.Leader.State.{
  Leader, Setup, Replies, fatal, if_running, is_merkle_root_submitted, all_commits_received,
  update_in_memory, get_or_create,
}
use drb_node.Leader.MerkleRoot.{generate_merkle_root, zero_operator}
use drb_node.Leader.Requests.{start_secret_value_requests, handle_secret_value_response}

pub data Verdict : Type 0 where
  accepted rejected process_exit : Verdict

-- What handleCommitRequest changes in the entry: a CVS that is there stays.
unfoldable pub take_cvs : CommitRequest → LeaderCommitData → LeaderCommitData
take_cvs req d =
    if d.cvs == zero32
    then record d { cvs = req.cvs; cvs_hex = encode_to_string req.cvs; sign = req.sign }
    else d

unfoldable pub after_save : Bytes → Bytes → LeaderCommitData → Option Error → Leader → Leader × Bool
after_save round addr d (some _) s = (s, false)
after_save round addr d none s = (update_in_memory round addr d s, true)

-- The entry is written to the file, and then to memory unless that failed; the flag says
-- whether the handler goes on.
unfoldable pub store_entry : Bytes → Bytes → LeaderCommitData → Leader → Leader × Bool
unfolding after_save
store_entry round addr d s =
    let (e, file) = save_leader_commit_data d s.leader_commits in
    after_save round addr d e (record s { leader_commits = file })

unfoldable pub ready_for_root : Bytes → Leader → Bool
ready_for_root round s = not (is_merkle_root_submitted round s) && all_commits_received round s

module _ (eth : Ethereum) where
  unfoldable pub lists_address : Bytes → List Bytes → Bool
  lists_address addr [] = false
  lists_address addr (op ∷ ops) = eth.hex_to_address op == addr || lists_address addr ops

  in_reply : Bytes → Option (List (List Bytes)) → Verdict
  unfolding lists_address
  in_reply addr none = rejected
  in_reply addr (some []) = rejected
  in_reply addr (some (ops ∷ _)) = if lists_address addr ops then accepted else rejected

  activated_at : Setup → Replies → ParsedInt → Bytes → Verdict
  unfolding in_reply
  activated_at setup replies (int_value z) addr =
      if setup.subgraph_url == [] then process_exit else in_reply addr (replies.activation z)
  activated_at setup replies syntax_error addr = rejected
  activated_at setup replies (range_error _) addr = rejected

  -- isEOAActivatedForRound
  unfoldable pub is_eoa_activated_for_round : Setup → Replies → Bytes → Bytes → Verdict
  unfolding activated_at
  is_eoa_activated_for_round setup replies round addr =
      activated_at setup replies (parse_int round) addr

  -- VerifySignatureAndCheckActivation
  unfoldable pub verify_signature_and_check_activation : Setup → Replies → Request → Verdict
  unfolding is_eoa_activated_for_round
  verify_signature_and_check_activation setup replies req =
      if verify_signature eth
        (record { eoa_address = req.eoa_address; signature = req.signature; peer_id = [] })
      then is_eoa_activated_for_round setup replies req.round (eth.hex_to_address req.eoa_address)
      else rejected

  -- The part of handleCommitRequest under commitMu.
  unfoldable pub commit_locked : CommitRequest → Leader → Leader × Bool
  unfolding take_cvs store_entry
  commit_locked req s =
      let addr = eth.hex_to_address req.eoa_address in
      let (s1, d) = get_or_create eth req.round addr s in
      store_entry req.round addr (take_cvs req d) s1

  -- The entry with the COS of the request, unless it has no CVS yet, or the COS does not open
  -- its CVS, or it has a COS.
  unfoldable pub cos_into : CosRequest → LeaderCommitData → Leader → Leader × Bool
  unfolding store_entry
  cos_into req d s =
      if d.cvs == zero32
      then (s, false)
      else if not (keccak256 eth req.cos == d.cvs)
      then (s, false)
      else if not (d.cos == zero32)
      then (s, false)
      else store_entry req.round (eth.hex_to_address req.eoa_address)
          (record d { cos = req.cos; cos_hex = encode_to_string req.cos }) s

  -- The part of handleCOSRequest under commitMu, up to the write.
  unfoldable pub cos_locked : CosRequest → Leader → Leader × Bool
  unfolding cos_into
  cos_locked req s =
      let (s1, d) = get_or_create eth req.round (eth.hex_to_address req.eoa_address) s in
      cos_into req d s1

  module _ (setup : Setup) (replies : Replies) where
    abbrev pub on_verdict : Verdict → (Leader → Leader) → Leader → Leader
    on_verdict accepted next s = next s
    on_verdict rejected next s = s
    on_verdict process_exit next s = fatal s

    -- The call of generateMerkleRoot after commitMu is unlocked, where all CVS are there.
    unfoldable pub root_if_ready : Bytes → Leader → Leader
    unfolding ready_for_root
    root_if_ready round s =
        if ready_for_root round s then generate_merkle_root eth setup replies round s else s

    -- handleCommitRequest from the lock on.
    unfoldable commit_accepted : CommitRequest → Leader → Leader
    unfolding commit_locked root_if_ready
    commit_accepted req s =
        let (s1, stored) = commit_locked req s in if stored then root_if_ready req.round s1 else s1

    unfoldable pub handle_commit_request : Option CommitRequest → Leader → Leader
    unfolding commit_accepted verify_signature_and_check_activation
    handle_commit_request none s = s
    handle_commit_request (some req) s =
        on_verdict
          (verify_signature_and_check_activation setup replies (record {
            round = req.round;
            eoa_address = req.eoa_address;
            signature = req.signature;
          }))
          (commit_accepted req) s

    module _ (sorter : RevealSort) where
      unfoldable pub after_order : Bytes → Option RevealError → Leader → Leader
      after_order round (some e) s = s
      after_order round none s = start_secret_value_requests eth setup replies round s

      -- The end of handleCOSRequest: the reveal order and the first request for a secret.
      unfoldable pub reveal_if_ready : Bytes → Leader → Leader
      unfolding after_order
      reveal_if_ready round s =
          let (e, files) =
            determine_reveal_order eth sorter round s.activated_operators
              (record { reveal_orders = s.reveal_orders; leader_commits = s.leader_commits }) in
          let s1 = record s {
            reveal_orders = files.reveal_orders;
            leader_commits = files.leader_commits;
          } in
          if all_commits_received round s then after_order round e s1 else s

      -- handleCOSRequest from the lock on.
      unfoldable cos_accepted : CosRequest → Leader → Leader
      unfolding cos_locked root_if_ready reveal_if_ready
      cos_accepted req s =
          let (s1, stored) = cos_locked req s in
          if stored then if_running (reveal_if_ready req.round) (root_if_ready req.round s1) else s1

      unfoldable pub handle_cos_request : Option CosRequest → Leader → Leader
      unfolding cos_accepted verify_signature_and_check_activation
      handle_cos_request none s = s
      handle_cos_request (some req) s =
          on_verdict
            (verify_signature_and_check_activation setup replies (record {
              round = req.round;
              eoa_address = req.eoa_address;
              signature = req.signature;
            }))
            (cos_accepted req) s
