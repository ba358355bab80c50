-- ===== src/Regular/Secrets/Signed.antt =====
-- nodes/regularNode_helper/secretValueHandler.go: the signature of the answer with a secret value.
use drb_node.Base.{
  ◌≡◌, sym, ap, subst, ◌∙◌, some-inj, inl, inr, Bytes, Bool, Option, some, [], All, All-append,
}
use drb_node.Crypto.{Ethereum}
use drb_node.Utils.Requests.{SecretValueRequest}
use drb_node.Utils.Signature.{key_eoa, verify_signature-sign_data}
use drb_node.Regular.State.{RegularNode, Env}
use drb_node.Regular.Secrets.{handle_secret_value_request}
use drb_node.Regular.Secrets.Outcome.{Discloses, handle_secret_value_request-Outcome}
use drb_node.Regular.Sends.Signed.{IsSigned, AllSigned}

module _ (eth : Ethereum) (env : Env) (reached : Bool) (key id : Bytes)
    (own_key : env.hex_to_ecdsa env.eoa_private_key ≡ some key) where
  disclosed-AllSigned :
      (round : Bytes) (s t : RegularNode)
      → Discloses eth env reached round s t
      → AllSigned eth (key_eoa eth key) id s
      → AllSigned eth (key_eoa eth key) id t
  disclosed-AllSigned round s t (d, key', signature, _, _, decoded, made, _, sent) all =
      let same : key' ≡ key = some-inj key' key (sym decoded ∙ own_key) in
      subst (All (IsSigned eth (key_eoa eth key) id)) (sym sent) (
        All-append (IsSigned eth (key_eoa eth key) id) s.outputs _ all
          ((ap (key_eoa eth) same, verify_signature-sign_data eth key' signature [] made), tt))

  -- The answer to a request for a secret value is signed by the node's key.
  pub handle_secret_value_request-AllSigned :
      (request : Option SecretValueRequest) (s : RegularNode)
      → AllSigned eth (key_eoa eth key) id s
      → AllSigned eth (key_eoa eth key) id (handle_secret_value_request eth env reached request s)
  handle_secret_value_request-AllSigned request s all =
      elim (handle_secret_value_request-Outcome eth env reached request s).1 [
        | inl silent ↦ subst (All (IsSigned eth (key_eoa eth key) id)) (sym silent) all
        | inr (req, _, _, sent) ↦
            disclosed-AllSigned req.round s (handle_secret_value_request eth env reached request s)
              sent all
      ]
