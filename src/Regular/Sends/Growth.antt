-- ===== src/Regular/Sends/Growth.antt =====
-- nodes/regularNode.go: the commit file of a regular node under the requests to the leader.
use drb_node.Base.{
  some-inj, ◌≡◌, refl, sym, subst, ◌∙◌, Bytes, bytes_eq, Bool, true, false, Option, none, some, [],
  ◌==◌, if◌then◌else◌,
}
use drb_node.Crypto.{Ethereum}
use drb_node.Go.Attempt.{Attempt, value, error, process_exit}
use drb_node.Go.File.{Error}
use drb_node.Utils.Commit.{CommitData, save_commit_data}
use drb_node.Utils.Commit.Growth.{Extends, stored, Grows, Grows-refl, save-Grows}
use drb_node.Utils.Signature.{sign_data}
use drb_node.CommitReveal.Commit.{Commitment}
use drb_node.CommitReveal.Commit.Chain.{IsChain}
use drb_node.Regular.State.{Output, RegularNode, Env, fatal, send_to_leader}
use drb_node.Regular.CvsSignature.{CvsSignature, generate_cvs_signature, sign_map}
use drb_node.Regular.Sends.{
  after_sign_saved, with_cvs_signature, with_commit_signature, with_commit_key,
  send_commit_to_leader, with_cos_signature,
}

-- The commitment in an entry.
abbrev pub commitment_in : CommitData → Commitment
commitment_in d = record { secret_value = d.secret_value; cos = d.cos; cvs = d.cvs }

module _ (eth : Ethereum) where
  -- An entry stands under its own round, and is a commitment.
  abbrev pub IsOwn : Bytes → CommitData → Type 0
  IsOwn round d = (d.round ≡ round) × IsChain eth (commitment_in d)

  abbrev pub Grown : RegularNode → RegularNode → Type 0
  Grown s t = Grows IsOwn s.commits t.commits

  pub Grown-same : (s t : RegularNode) → t.commits ≡ s.commits → Grown s t
  Grown-same s t same = subst (Grows IsOwn s.commits) (sym same) (Grows-refl IsOwn s.commits)

  pub if-Grown :
      (b : Bool) (s t u : RegularNode) → Grown s t → Grown s u → Grown s (if b then t else u)
  if-Grown true s t u p q = p
  if-Grown false s t u p q = q

  pub send_to_leader-same :
      (reached : Bool) (o : Output) (s : RegularNode)
      → (send_to_leader reached o s).commits ≡ s.commits
  unfolding send_to_leader
  send_to_leader-same true o s = refl
  send_to_leader-same false o s = refl

  after_sign_saved-same :
      (reached : Bool) (d : CommitData) (eoa signature : Bytes) (e : Option Error) (s : RegularNode)
      → (after_sign_saved reached d eoa signature e s).commits ≡ s.commits
  unfolding after_sign_saved
  after_sign_saved-same reached d eoa signature none s = send_to_leader-same reached _ s
  after_sign_saved-same reached d eoa signature (some e) s = refl

  -- An entry that is stored, and may be written again with more.
  abbrev pub IsThere : CommitData → RegularNode → Type 0
  IsThere d s = (stored d.round s.commits ≡ some d) × IsChain eth (commitment_in d)

  pub Extends-there :
      (d new : CommitData) (s : RegularNode)
      → IsThere d s
      → Extends d new
      → (old : CommitData) → stored d.round s.commits ≡ some old
      → Extends old new
  Extends-there d new s (there, _) x old e =
      let same : d ≡ old = some-inj d old (sym there ∙ e) in subst (λ y. Extends y new) same x

  with_cvs_signature-Grown :
      (reached : Bool) (d : CommitData) (eoa signature : Bytes) (a : Attempt CvsSignature)
      (s : RegularNode)
      → IsThere d s
      → Grown s (with_cvs_signature reached d eoa signature a s)
  unfolding with_cvs_signature
  with_cvs_signature-Grown reached d eoa signature process_exit s there =
      Grown-same s (fatal s) refl
  with_cvs_signature-Grown reached d eoa signature error s there = Grown-same s s refl
  with_cvs_signature-Grown reached d eoa signature (value x) s there =
      let signed = record d { sign = sign_map x } in
      let s1 = record s { commits = (save_commit_data signed s.commits).1 } in
      subst (Grows IsOwn s.commits)
        (sym (
          after_sign_saved-same reached signed eoa signature (save_commit_data signed s.commits).0
            s1))
        (save-Grows IsOwn signed s.commits (refl, there.1)
          (Extends-there d signed s there
            (record { same_secret = refl; same_cos = refl; same_cvs = refl; stays_sent = λ h. h })))

  pub send_cos-same :
      (reached : Bool) (d : CommitData) (eoa : Bytes) (o : Option Bytes) (s : RegularNode)
      → (with_cos_signature eth reached d eoa o s).commits ≡ s.commits
  unfolding with_cos_signature
  send_cos-same reached d eoa none s = refl
  send_cos-same reached d eoa (some signature) s = send_to_leader-same reached _ s

  module _ (env : Env) (eoa : Bytes) where
    with_commit_signature-Grown :
        (reached : Bool) (d : CommitData) (o : Option Bytes) (s : RegularNode)
        → IsThere d s
        → Grown s (with_commit_signature eth env reached d eoa o s)
    unfolding with_commit_signature
    with_commit_signature-Grown reached d none s there = Grown-same s (fatal s) refl
    with_commit_signature-Grown reached d (some signature) s there =
        with_cvs_signature-Grown reached d eoa signature
          (generate_cvs_signature eth env d.round d.cvs) s there

    with_commit_key-Grown :
        (reached : Bool) (d : CommitData) (o : Option Bytes) (s : RegularNode)
        → IsThere d s
        → Grown s (with_commit_key eth env reached d eoa o s)
    unfolding with_commit_key
    with_commit_key-Grown reached d none s there = Grown-same s s refl
    with_commit_key-Grown reached d (some k) s there =
        with_commit_signature-Grown reached d (sign_data eth eoa k) s there

    pub send_commit-Grown :
        (reached : Bool) (d : CommitData) (s : RegularNode)
        → IsThere d s
        → Grown s (send_commit_to_leader eth env reached d eoa s)
    unfolding send_commit_to_leader
    send_commit-Grown reached d s there =
        if-Grown (env.eoa_private_key == []) s _ _ (Grown-same s (fatal s) refl)
          (with_commit_key-Grown reached d (env.hex_to_ecdsa env.eoa_private_key) s there)
