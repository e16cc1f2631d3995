-- ===== src/Usage/Balance.antt =====
-- Sums of the usage that a sync moves.
use quotacontrol.Prelude.{
  ◌≡◌, ◌⊎◌, inl, inr, nat_eq, Bool, true, false, ◌&&◌, not, Option, none, some, ap, arith,
  if◌then◌else◌,
}
use quotacontrol.Prelude.Int.{ℤ, pos, ◌+ℤ◌, IsInt64, add64, wrap64, int_eq, int_laws}
use quotacontrol.Prelude.Text.{text_eq}
use quotacontrol.Usage.{or_zero}
use quotacontrol.Usage.Recorded.{is_failed}

zero_add : (n : ℤ) → IsInt64 n → add64 (pos 0) n ≡ n
unfolding add64 wrap64 ◌+ℤ◌
zero_add n fits = ground arith

last_first : (n before : ℤ) → n +ℤ (before +ℤ pos 0) ≡ (pos 0 +ℤ n) +ℤ before
last_first n before = omega int_laws

pub swap : (a b c : ℤ) → (a +ℤ b) +ℤ c ≡ (a +ℤ c) +ℤ b
swap a b c = omega int_laws

pub regroup : (a b c d : ℤ) → ((a +ℤ b) +ℤ c) +ℤ d ≡ (a +ℤ (b +ℤ d)) +ℤ c
regroup a b c d = omega int_laws

pub left_zero : (a : ℤ) → pos 0 +ℤ a ≡ a
left_zero a = omega int_laws

pub right_zero : (a : ℤ) → a +ℤ pos 0 ≡ a
right_zero a = omega int_laws

-- What goes back to the tracker and what is stored make up what was told.
pub balance :
    (hit : Bool) (answer : Option Bool) (told : Option ℤ) (left before : ℤ)
    → IsInt64 (if hit then or_zero told else pos 0)
    → (hit ≡ false) ⊎ (left ≡ pos 0)
    → (if hit && is_failed answer then add64 left (or_zero told) else left)
        +ℤ (before +ℤ (if hit && not (is_failed answer) then or_zero told else pos 0))
      ≡ (left +ℤ (if hit then or_zero told else pos 0)) +ℤ before
balance false answer told left before fits clear = omega int_laws
balance true none told left before fits clear = omega int_laws
balance true (some true) told left before fits clear = omega int_laws
balance true (some false) told left before fits (inl miss) = cc miss
balance true (some false) told left before fits (inr zero) = cc (
  ap (λ a. add64 a (or_zero told)) zero,
  zero,
  zero_add (or_zero told) fits,
  last_first (or_zero told) before,
)
