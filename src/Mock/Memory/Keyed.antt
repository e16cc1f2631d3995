-- ===== src/Mock/Memory/Keyed.antt =====
-- The access keys of `MemoryStore` of mock/mem.go as a map.
use quotacontrol.Prelude.{
  ℕ, ◌≡◌, refl, Bool, true, false, none, some, List, [], ◌∷◌, ◌==◌, nat_eq, arith, if◌then◌else◌,
  nat_beq_iff,
}
use quotacontrol.Prelude.Text.{Text, text_eq, text_beq_iff}
use quotacontrol.Prelude.Assoc.{Assoc, lookup, insert, lookup-insert}
use quotacontrol.Proto.Types.{AccessKey}
use quotacontrol.Mock.Memory.{listed}

abbrev pub Keyed : Assoc Text AccessKey → Type 0
Keyed [] = Unit {0}
Keyed ((a, k) ∷ m) = (k.access_key ≡ a) × (lookup a m ≡ none) × Keyed m

pub Keyed-insert :
    (k : AccessKey) (m : Assoc Text AccessKey) → Keyed m → Keyed (insert k.access_key k m)
unfolding insert lookup
Keyed-insert k [] h = (refl, refl, tt)
Keyed-insert k ((a, j) ∷ m) h = ground (
  arith,
  text_beq_iff a k.access_key,
  Keyed-insert k m h.2,
  lookup-insert k.access_key a k m,
  text_beq_iff k.access_key a,
)

-- The key under which an access key stands is its own.
pub key-lookup :
    (a : Text) (k : AccessKey) (m : Assoc Text AccessKey)
    → Keyed m
    → lookup a m ≡ some k
    → k.access_key ≡ a
unfolding lookup
key-lookup a k [] h e = cc
key-lookup a k ((b, j) ∷ m) h e = ground (arith, key-lookup a k m h.2, text_beq_iff b a)

-- The active keys of a project.
abbrev pub active_keys : ℕ → Assoc Text AccessKey → List AccessKey
active_keys project_id = listed project_id (some true) none

-- Every key of a list passes.
abbrev pub Listed : (AccessKey → Type 0) → List AccessKey → Type 0
Listed P [] = Unit {0}
Listed P (k ∷ rest) = P k × Listed P rest

abbrev pub Stands : ℕ → Assoc Text AccessKey → AccessKey → Type 0
Stands p m k = (lookup k.access_key m ≡ some k) × (k.project_id ≡ p) × (k.active ≡ true)

Stands-cons :
    (p : ℕ) (a : Text) (j k : AccessKey) (m : Assoc Text AccessKey)
    → lookup a m ≡ none
    → Stands p m k
    → Stands p ((a, j) ∷ m) k
unfolding lookup
Stands-cons p a j k m h s = ground (arith, text_beq_iff a k.access_key)

Listed-cons :
    (p : ℕ) (a : Text) (j : AccessKey) (m : Assoc Text AccessKey) (l : List AccessKey)
    → lookup a m ≡ none
    → Listed (Stands p m) l
    → Listed (Stands p ((a, j) ∷ m)) l
Listed-cons p a j m [] h s = tt
Listed-cons p a j m (k ∷ l) h s = (Stands-cons p a j k m h s.0, Listed-cons p a j m l h s.1)

pub active_keys-Stands :
    (p : ℕ) (m : Assoc Text AccessKey) → Keyed m → Listed (Stands p m) (active_keys p m)
unfolding listed lookup
active_keys-Stands p [] h = tt
active_keys-Stands p ((a, k) ∷ m) h =
    let rest = Listed-cons p a k m (active_keys p m) h.1 (active_keys-Stands p m h.2) in
    ground (arith, rest, text_beq_iff a a, text_beq_iff a k.access_key, nat_beq_iff k.project_id p)

-- Conversely, a key that stands in the map is among the active keys of its project.
abbrev pub among : Text → List AccessKey → Bool
among a [] = false
among a (k ∷ rest) = if k.access_key == a then true else among a rest

pub among-active_keys :
    (p : ℕ) (m : Assoc Text AccessKey) (a : Text) (k : AccessKey)
    → Keyed m
    → lookup a m ≡ some k
    → k.project_id ≡ p
    → k.active ≡ true
    → among a (active_keys p m) ≡ true
unfolding listed lookup
among-active_keys p [] a k h e q r = cc
among-active_keys p ((b, j) ∷ m) a k h e q r = ground (
  arith,
  among-active_keys p m a k h.2,
  text_beq_iff b a,
  text_beq_iff j.access_key a,
  nat_beq_iff j.project_id p,
)
