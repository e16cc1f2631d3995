-- ===== src/Prelude/Text.antt =====
-- Go's strings: sequences of bytes, and their decimal numerals.
use Prim.Native.Nat.{ℕ, zero, suc, ◌+◌, ◌/◌, ◌%◌}
use Prim.Native.Char.{code}
use Prim.Native.String.{String}
use mathlib.Core.Path.{◌≡◌, refl}
use mathlib.Core.Logic.{◌↔◌}
use mathlib.Core.Bool.{Bool, true, false, ◌&&◌}
use mathlib.Core.List.{List, [], ◌∷◌, ◌++◌}
use native.Mathlib.Omega.{arith}
use quotacontrol.Prelude.Tests.{ltb, nat_beq, if◌then◌else◌, Eq}

abbrev pub Text : Type 0
Text = List ℕ

-- The bytes of an ASCII literal.
abbrev pub codes : String → Text
codes String.[] = []
codes (String.◌∷◌ c s) = code c ∷ codes s

unfoldable pub text_beq : Text → Text → Bool
text_beq [] [] = true
text_beq [] (y ∷ ys) = false
text_beq (x ∷ xs) [] = false
text_beq (x ∷ xs) (y ∷ ys) = nat_beq x y && text_beq xs ys

text_beq_self : (x : Text) → text_beq x x ≡ true
unfolding text_beq
text_beq_self [] = refl
text_beq_self (x ∷ xs) = ground (arith, text_beq_self xs)

eq_of_text_beq : (x y : Text) → text_beq x y ≡ true → x ≡ y
unfolding text_beq
eq_of_text_beq [] [] h = refl
eq_of_text_beq [] (y ∷ ys) h = cc
eq_of_text_beq (x ∷ xs) [] h = cc
eq_of_text_beq (x ∷ xs) (y ∷ ys) h = ground (arith, eq_of_text_beq xs ys)

pub text_beq_iff : (x y : Text) → (text_beq x y ≡ true) ↔ (x ≡ y)
text_beq_iff x y = (eq_of_text_beq x y, λ e. rw e (text_beq_self y))

instance abbrev pub text_eq : Eq Text
text_eq = record { same = text_beq; same_iff = text_beq_iff }

-- The digits of a number below 10^fuel in front of a text. A `uint64` has at most 20 digits.
decimal_with : ℕ → ℕ → Text → Text
decimal_with zero n rest = rest
decimal_with (suc fuel) n rest =
    let more = decimal_with fuel (n / 10) ((48 + n % 10) ∷ rest) in
    if ltb n 10 then (48 + n) ∷ rest else more

-- `%d` of a `uint64`.
unfoldable pub decimal : ℕ → Text
unfolding decimal_with
decimal n = decimal_with 20 n []

decimal_2026 : decimal 2026 ≡ codes "2026"
unfolding decimal
decimal_2026 = refl

-- A prefix can be cancelled.
pub append_cancel : (p x y : Text) → (p ++ x) ≡ (p ++ y) → x ≡ y
append_cancel [] x y h = h
append_cancel (a ∷ p) x y h = append_cancel p x y (cc)
