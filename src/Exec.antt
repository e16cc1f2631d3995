-- ===== src/Exec.antt =====
-- Stateful code that can fail or panic: a state and the result of a Go function.
use quotacontrol.Prelude.{String, ◌≡◌, ◌⊎◌, inl, inr, refl}
use quotacontrol.Proto.Errors.{Error, wrapped, Result, ok, err, panic}

abbrev pub Exec {ℓ} : Type 0 → Type ℓ → Type ℓ
Exec S A = S → Result A × S

infixl 5 ◌>>=◌ ◌>>◌
abbrev pub run_next {ℓ κ} :
    {S : Type 0} {A : Type ℓ} {B : Type κ} → (A → Exec S B) → Result A × S → Result B × S
run_next f (ok a, s) = f a s
run_next f (err e, s) = (err e, s)
run_next f (panic, s) = (panic, s)

abbrev pub ◌>>=◌ {ℓ κ} :
    {S : Type 0} {A : Type ℓ} {B : Type κ} → Exec S A → (A → Exec S B) → Exec S B
◌>>=◌ m f s = run_next f (m s)

abbrev pub ◌>>◌ {ℓ κ} : {S : Type 0} {A : Type ℓ} {B : Type κ} → Exec S A → Exec S B → Exec S B
◌>>◌ m k = m >>= λ _. k

abbrev pub pure {ℓ} : {S : Type 0} {A : Type ℓ} → A → Exec S A
pure a s = (ok a, s)

abbrev pub raise {ℓ} : {S : Type 0} {A : Type ℓ} → Error → Exec S A
raise e s = (err e, s)

-- A call whose error the caller looks at: `v, err := m()`.
pub data Attempt {ℓ} (A : Type ℓ) : Type ℓ where
  got : A → Attempt A
  failed : Error → Attempt A

abbrev pub attempted {ℓ} : {S : Type 0} {A : Type ℓ} → Result A × S → Result (Attempt A) × S
attempted (ok a, s) = (ok (got a), s)
attempted (err e, s) = (ok (failed e), s)
attempted (panic, s) = (panic, s)

abbrev pub attempt {ℓ} : {S : Type 0} {A : Type ℓ} → Exec S A → Exec S (Attempt A)
attempt m s = attempted (m s)

-- `if err != nil { return fmt.Errorf("…: %w", err) }`
abbrev pub wrap {ℓ} : {S : Type 0} {A : Type ℓ} → String → Exec S A → Exec S A
wrap msg m = attempt m >>= elim [ got a ↦ pure a | failed e ↦ raise (wrapped msg e) ]

-- `if err := m(); err != nil { log.Error(…) }`
abbrev pub ignore {ℓ} : {S : Type 0} {A : Type ℓ} → Exec S A → Exec S (Unit {0})
ignore m = attempt m >>= λ _. pure tt

-- Code that leaves the state alone.
abbrev pub lift {ℓ} : {S : Type 0} {A : Type ℓ} → Result A → Exec S A
lift r s = (r, s)

-- A call on one half of a state.
abbrev pub on_first {ℓ} : {S T : Type 0} {A : Type ℓ} → Exec S A → Exec (S × T) A
on_first call (s, t) = let (reply, s') = call s in (reply, (s', t))

abbrev pub on_second {ℓ} : {S T : Type 0} {A : Type ℓ} → Exec T A → Exec (S × T) A
on_second call (s, t) = let (reply, t') = call t in (reply, (s, t'))

pub Result-cases {ℓ} :
    {A : Type ℓ} (r : Result A)
    → ((a : A) × (r ≡ ok a)) ⊎ (((e : Error) × (r ≡ err e)) ⊎ (r ≡ panic))
Result-cases (ok a) = inl (a, refl)
Result-cases (err e) = inr (inl (e, refl))
Result-cases panic = inr (inr refl)
