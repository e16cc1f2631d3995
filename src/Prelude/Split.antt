-- ===== src/Prelude/Split.antt =====
-- `strings.Split` and `strings.Cut`, by a single byte.
use Prim.Native.Nat.{ℕ}
use mathlib.Core.Path.{◌≡◌, refl}
use mathlib.Core.Bool.{false}
use mathlib.Core.Option.{Option, none, some}
use mathlib.Core.List.{List, [], ◌∷◌, ◌++◌}
use native.Mathlib.Omega.{arith}
use quotacontrol.Prelude.Tests.{nat_beq, if◌then◌else◌}
use quotacontrol.Prelude.Lists.{All}
use quotacontrol.Prelude.Text.{Text}

abbrev pub onto_first : ℕ → List Text → List Text
onto_first x [] = (x ∷ []) ∷ []
onto_first x (part ∷ parts) = (x ∷ part) ∷ parts

unfoldable pub split : ℕ → Text → List Text
split c [] = [] ∷ []
split c (x ∷ t) = let parts = split c t in if nat_beq x c then [] ∷ parts else onto_first x parts

abbrev pub in_front : ℕ → Option (Text × Text) → Option (Text × Text)
in_front x none = none
in_front x (some (a, b)) = some (x ∷ a, b)

-- `none` where the byte is not there.
unfoldable pub cut : ℕ → Text → Option (Text × Text)
cut c [] = none
cut c (x ∷ t) = let rest = cut c t in if nat_beq x c then some ([], t) else in_front x rest

abbrev pub Without : ℕ → Text → Type 0
Without c = All (λ x. nat_beq x c ≡ false)

pub split_none : (c : ℕ) (t : Text) → Without c t → split c t ≡ t ∷ []
unfolding split
split_none c [] h = refl
split_none c (x ∷ t) h = ground (arith, split_none c t h.1, h.0)

pub split_first : (c : ℕ) (a b : Text) → Without c a → split c (a ++ c ∷ b) ≡ a ∷ split c b
unfolding split
split_first c [] b h = ground arith
split_first c (x ∷ a) b h = ground (arith, split_first c a b h.1, h.0)

pub cut_first : (c : ℕ) (a b : Text) → Without c a → cut c (a ++ c ∷ b) ≡ some (a, b)
unfolding cut
cut_first c [] b h = ground arith
cut_first c (x ∷ a) b h = ground (arith, cut_first c a b h.1, h.0)
