-- ===== src/Client/Spend/Sums.antt =====
-- Sums of the amounts of spends.
use quotacontrol.Prelude.{◌≡◌, refl, List, [], ◌∷◌, ◌++◌, arith}
use quotacontrol.Prelude.Int.{ℤ, pos, ◌+ℤ◌, ◌-ℤ◌, ◌≤ℤ◌, ◌<ℤ◌, IsInt64, max_ℤ, int_laws}

abbrev pub sum : List ℤ → ℤ
sum [] = pos 0
sum (a ∷ rest) = a +ℤ sum rest

left_comm : (x a y : ℤ) → x +ℤ (a +ℤ y) ≡ a +ℤ (x +ℤ y)
left_comm x a y = omega int_laws

pub cancel_right : (n a : ℤ) → (n +ℤ a) -ℤ a ≡ n
cancel_right n a = omega int_laws

pub assoc_bound : (n a y b : ℤ) → n +ℤ (a +ℤ y) ≤ℤ b → (n +ℤ a) +ℤ y ≤ℤ b
assoc_bound n a y b h = omega int_laws

pub chain : (x y z : ℤ) → (y -ℤ x) +ℤ (z -ℤ y) ≡ z -ℤ x
chain x y z = omega int_laws

pub below_bound : (n a y m burst : ℤ) → a +ℤ y ≤ℤ burst → n <ℤ m → n +ℤ (a +ℤ y) ≤ℤ m +ℤ burst
below_bound n a y m burst h k = omega int_laws

pub at_most_max : (x y : ℤ) → y ≤ℤ max_ℤ x y
at_most_max x y = ground arith

fits_below : (x b : ℤ) → pos 0 ≤ℤ x → x ≤ℤ b → IsInt64 b → IsInt64 x
fits_below x b p h i = ground arith

pub fits_between :
    (n a y b : ℤ)
    → pos 0 ≤ℤ n
    → pos 0 <ℤ a
    → pos 0 ≤ℤ y
    → n +ℤ (a +ℤ y) ≤ℤ b
    → IsInt64 b
    → IsInt64 (n +ℤ a)
fits_between n a y b p q t h i = fits_below (n +ℤ a) b (omega int_laws) (omega int_laws) i

pub self_diff : (x : ℤ) → x -ℤ x ≡ pos 0
self_diff x = omega int_laws

pub add_zero : (x : ℤ) → x +ℤ pos 0 ≡ x
add_zero x = omega int_laws

pub sum-split : (xs ys : List ℤ) (a : ℤ) → sum (xs ++ a ∷ ys) ≡ a +ℤ sum (xs ++ ys)
sum-split [] ys a = refl
sum-split (x ∷ xs) ys a = cc (left_comm x a (sum (xs ++ ys)), sum-split xs ys a)
