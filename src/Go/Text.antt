-- ===== src/Go/Text.antt =====
-- strings.TrimPrefix and strings.Split over one separator byte.
pub mod Split
use drb_node.Base.{ℕ, Bytes, Option, none, some, List, [], ◌∷◌, eqb, if◌then◌else◌}

-- The rest of a text after a prefix.
unfoldable pub after_prefix : Bytes → Bytes → Option Bytes
after_prefix [] text = some text
after_prefix (p ∷ ps) [] = none
after_prefix (p ∷ ps) (c ∷ cs) = let rest = after_prefix ps cs in if eqb p c then rest else none

unfoldable pub trim_prefix : Bytes → Bytes → Bytes
unfolding after_prefix
trim_prefix text prefix = elim (after_prefix prefix text) [ none ↦ text | some rest ↦ rest ]

unfoldable pub push_front : ℕ → List Bytes → List Bytes
push_front c [] = (c ∷ []) ∷ []
push_front c (part ∷ parts) = (c ∷ part) ∷ parts

unfoldable pub split : ℕ → Bytes → List Bytes
unfolding push_front
split separator [] = [] ∷ []
split separator (c ∷ cs) =
    let parts = split separator cs in if eqb c separator then [] ∷ parts else push_front c parts
