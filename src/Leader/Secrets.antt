-- ===== src/Leader/Secrets.antt =====
-- nodes/leaderNode_helper/secret_value_handler.go: the handler of secret values. It works on the
-- file leader_commits.json alone, and not on the leader's memory.
use drb_node.Base.{Bytes, Option, none, some, [], if◌then◌else◌, copy_into}
use drb_node.Crypto.{Ethereum}
use drb_node.Go.File.{Error}
use drb_node.Go.Hex.{encode_to_string}
use drb_node.Utils.Requests.{SecretValueRequest}
use drb_node.Utils.Signature.{verify_signature}
use drb_node.Utils.LeaderNodeData.{
  LeaderCommitData, new_commit_data, Loaded, loaded, load_failed, load_leader_commit_data,
  save_leader_commit_data,
}
use drb_node.Leader.State.{Leader, Setup, Replies}
use drb_node.Leader.Requests.{handle_secret_value_response}

-- A failed load is answered by a new entry.
unfoldable pub loaded_or_new : SecretValueRequest → Loaded → LeaderCommitData
loaded_or_new req (loaded d) = d
loaded_or_new req (load_failed e) = new_commit_data req.round req.eoa_address

unfoldable pub take_secret : SecretValueRequest → LeaderCommitData → LeaderCommitData
take_secret req d = record d {
  secret_value = copy_into d.secret_value req.secret_value;
  secret_value_hex = encode_to_string req.secret_value;
}

module _ (eth : Ethereum) (setup : Setup) (replies : Replies) where
  -- The end of the handler, where the entry was saved.
  unfoldable pub after_secret_save : Bytes → Option Error → Leader → Leader
  after_secret_save round (some e) s = s
  after_secret_save round none s = handle_secret_value_response eth setup replies round s

  unfoldable pub accept_secret_value : Option SecretValueRequest → Leader → Leader
  unfolding loaded_or_new take_secret after_secret_save
  accept_secret_value none s = s
  accept_secret_value (some req) s =
      let (r, file) = load_leader_commit_data req.round req.eoa_address s.leader_commits in
      let (e, file') = save_leader_commit_data (take_secret req (loaded_or_new req r)) file in
      if verify_signature eth
        (record { eoa_address = req.eoa_address; signature = req.signature; peer_id = [] })
      then after_secret_save req.round e (record s { leader_commits = file' })
      else s
