-- ===== src/Go/Text/Split.antt =====
-- strings.Split over a text whose parts hold no separator.
use drb_node.Base.{ℕ, Bytes, false, ◌≡◌, refl, [], ◌∷◌, ◌++◌, eqb, eqb_iff, All}
use drb_node.Go.Text.{push_front, split}

-- No byte of the text is the separator.
abbrev pub IsFree : ℕ → Bytes → Type 0
IsFree separator text = All (λ c. eqb c separator ≡ false) text

pub split-IsFree :
    (separator : ℕ) (part : Bytes) → IsFree separator part → split separator part ≡ part ∷ []
unfolding split push_front
split-IsFree separator [] free = refl
split-IsFree separator (c ∷ cs) free = rw free.0 (rw (split-IsFree separator cs free.1) refl)

pub split-append :
    (separator : ℕ) (part rest : Bytes)
    → IsFree separator part
    → split separator (part ++ (separator ∷ rest)) ≡ part ∷ split separator rest
unfolding split push_front
split-append separator [] rest free = rw ((eqb_iff separator separator).1 refl) refl
split-append separator (c ∷ cs) rest free =
    rw free.0 (rw (split-append separator cs rest free.1) refl)
