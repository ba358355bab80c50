-- ===== src/Leader/Monitor/Secrets/Complete.antt =====
-- nodes/leaderNode_helper/monitor_commits.go: when the loop over the operators finds that all have
-- submitted.
use drb_node.Base.{
  ◌≡◌, ◌≢◌, refl, sym, ap, subst, ◌∙◌, ◌⊎◌, inl, inr, Bytes, true, false, none, some, List, [], ◌∷◌,
  ◌++◌, map, All, Mem,
}
use mathlib.Core.List.{append_assoc, append-nil, mem-cons_self, mem-cons_of_mem}
use drb_node.Base.Maps.{Map}
use drb_node.Crypto.{Ethereum}
use drb_node.Utils.LeaderNodeData.{LeaderCommitData}
use drb_node.Leader.State.{NodeInfo, Leader, Setup, Replies}
use drb_node.Leader.Monitor.Secrets.Ready.{IsReady, judge-IsReady, IsReady-judge}
use drb_node.Leader.Monitor.Secrets.{
  Submitted, Revealed, no_secrets, Judged, no_secret, incomplete_signature, bad_v, ready,
  append_submitted, fetch_node_info, judge, with_info, with_judged, collect_secrets,
}

-- The four lists in step.
abbrev pub columns : List Submitted → Revealed
columns xs = record {
  secrets = map (λ (x : Submitted). x.secret) xs;
  vs = map (λ (x : Submitted). x.v) xs;
  rs = map (λ (x : Submitted). x.r) xs;
  ss = map (λ (x : Submitted). x.s) xs;
}

add_all : Revealed → List Submitted → Revealed
add_all acc [] = acc
add_all acc (x ∷ xs) = add_all (append_submitted acc x) xs

abbrev joined : Revealed → List Submitted → Revealed
joined acc xs = record {
  secrets = acc.secrets ++ (columns xs).secrets;
  vs = acc.vs ++ (columns xs).vs;
  rs = acc.rs ++ (columns xs).rs;
  ss = acc.ss ++ (columns xs).ss;
}

add_all-joined : (acc : Revealed) (xs : List Submitted) → add_all acc xs ≡ joined acc xs
unfolding add_all append_submitted
add_all-joined acc [] = simp append-nil
add_all-joined acc (x ∷ xs) = add_all-joined (append_submitted acc x) xs ∙ simp append_assoc

module _ (eth : Ethereum) (setup : Setup) (replies : Replies) (round : Bytes)
    (commits : Map Bytes LeaderCommitData) where
  -- The operators with what each has submitted.
  abbrev pub AllReady : List Bytes → List Submitted → Type 0
  AllReady [] [] = Unit
  AllReady (op ∷ ops) (x ∷ xs) = IsReady eth round commits op x × AllReady ops xs
  AllReady _ _ = ⊥

  -- The file of registered nodes can be read and has the operator's node.
  abbrev pub IsKnown : Leader → Bytes → Type 0
  IsKnown s op = (node : NodeInfo) × ((fetch_node_info (eth.address_hex op) s).0 ≡ some node)

  -- The operator's secret value or its signature is missing, incomplete or not a number.
  abbrev pub IsUnready : Bytes → Type 0
  IsUnready op = (x : Submitted) → ¬ IsReady eth round commits op x

  -- Some operator of the list is such.
  abbrev pub SomeUnready : List Bytes → Type 0
  SomeUnready ops = (op : Bytes) × Mem op ops × IsUnready op

  judged-IsUnready :
      (op : Bytes) (j : Judged)
      → judge eth round commits op ≡ j
      → ((x : Submitted) → j ≢ ready x)
      → IsUnready op
  judged-IsUnready op j e h x p = h x (sym e ∙ IsReady-judge eth round commits op x p)

  abbrev Result : List Bytes → Revealed → Leader → Type 0
  Result ops acc s =
      ((xs : List Submitted) × AllReady ops xs
        × (collect_secrets eth setup replies round commits ops acc s
            ≡ record { leader = s; all_submitted = true; revealed = add_all acc xs }))
      ⊎ (((collect_secrets eth setup replies round commits ops acc s).all_submitted ≡ false)
          × SomeUnready ops)

  collect_lem :
      (ops : List Bytes) (acc : Revealed) (s : Leader) → All (IsKnown s) ops → Result ops acc s
  unfolding collect_secrets add_all
  collect_lem [] acc s known = inl ([], tt, refl)
  collect_lem (op ∷ ops) acc s ((node, found), known) =
      of_judged (λ later. collect_lem ops later s known) (judge eth round commits op) refl
    where
      of_judged :
          ((later : Revealed) → Result ops later s)
          → (j : Judged) → judge eth round commits op ≡ j
          → Result (op ∷ ops) acc s
      of_judged rest no_secret e = inr (
        rw (e, with_judged, found, with_info) refl,
        (op, mem-cons_self, judged-IsUnready op no_secret e (λ x h. cc)),
      )
      of_judged rest incomplete_signature e = inr (
        rw (e, with_judged) refl,
        (op, mem-cons_self, judged-IsUnready op incomplete_signature e (λ x h. cc)),
      )
      of_judged rest bad_v e =
          inr
            (rw (e, with_judged) refl, (op, mem-cons_self, judged-IsUnready op bad_v e (λ x h. cc)))
      of_judged rest (ready x) e = elim (rest (append_submitted acc x)) [
        | inl (xs, all, done) ↦
            inl (x ∷ xs, (judge-IsReady eth round commits op x e, all), rw (e, with_judged) done)
        | inr (stopped, (bad, among, unready)) ↦
            inr (rw (e, with_judged) stopped, (bad, mem-cons_of_mem op among, unready))
      ]

  -- Where each operator's node is known, the loop either finds a secret value and a whole signature
  -- for every operator, and then has them in the operators' order, in four lists in step, and the
  -- leader has done nothing else; or it reports that not all have submitted, and then the secret value
  -- or the signature of some operator is not whole.
  pub collect_secrets-AllReady :
      (ops : List Bytes) (s : Leader)
      → All (IsKnown s) ops
      → ((xs : List Submitted) × AllReady ops xs
          × (collect_secrets eth setup replies round commits ops no_secrets s
              ≡ record { leader = s; all_submitted = true; revealed = columns xs }))
        ⊎ (((collect_secrets eth setup replies round commits ops no_secrets s).all_submitted
              ≡ false)
            × SomeUnready ops)
  collect_secrets-AllReady ops s known = elim (collect_lem ops no_secrets s known) [
    | inl (xs, all, done) ↦ inl (
      xs,
      all,
      done
          ∙ ap (λ (x : Revealed). record { leader = s; all_submitted = true; revealed = x })
              (add_all-joined no_secrets xs),
    )
    | inr stopped ↦ inr stopped
  ]

  -- No operator's node can be found, and a read of the file leaves the leader as it is.
  abbrev pub HasNoNodes : Leader → Type 0
  HasNoNodes s =
      (eoa : Bytes) → ((fetch_node_info eoa s).0 ≡ none) × ((fetch_node_info eoa s).1 ≡ s)

  -- Where no operator's node can be found and no signature is incomplete or wrong, the loop reports
  -- that all have submitted, whoever's secret value is missing.
  pub collect_secrets-passed_over :
      (ops : List Bytes) (acc : Revealed) (s : Leader)
      → HasNoNodes s
      → All
          (λ op.
            (judge eth round commits op ≢ incomplete_signature)
            × (judge eth round commits op ≢ bad_v))
          ops
      → (collect_secrets eth setup replies round commits ops acc s).all_submitted ≡ true
  unfolding collect_secrets
  collect_secrets-passed_over [] acc s nodes signed = refl
  collect_secrets-passed_over (op ∷ ops) acc s nodes ((whole, good), signed) =
      of_judged (λ later. collect_secrets-passed_over ops later s nodes signed)
        (judge eth round commits op) refl
    where
      of_judged :
          ((later : Revealed)
            → (collect_secrets eth setup replies round commits ops later s).all_submitted ≡ true)
          → (j : Judged) → judge eth round commits op ≡ j
          → (collect_secrets eth setup replies round commits (op ∷ ops) acc s).all_submitted ≡ true
      of_judged rest no_secret e =
          rw (e, with_judged, (nodes (eth.address_hex op)).0, with_info)
            (subst
              (λ t.
                (collect_secrets eth setup replies round commits ops acc t).all_submitted ≡ true)
              (sym (nodes (eth.address_hex op)).1) (rest acc))
      of_judged rest incomplete_signature e = absurd (whole e)
      of_judged rest bad_v e = absurd (good e)
      of_judged rest (ready x) e = rw (e, with_judged) (rest (append_submitted acc x))
