-- ===== src/Server/Keys/Defaults.antt =====
-- The default keys of projects: what is asked of them, and the changes that operations make.
use quotacontrol.Prelude.{
  ℕ, ◌≡◌, ◌≢◌, refl, sym, ◌∙◌, true, false, none, some, List, [], ◌∷◌, nat_eq, arith, is_empty,
  nat_beq_iff, Bool-cases, inl, inr,
}
use quotacontrol.Prelude.Text.{Text, text_eq, text_beq_iff}
use quotacontrol.Prelude.Assoc.{Assoc, lookup, lookup-insert}
use quotacontrol.Proto.Types.{AccessKey}
use quotacontrol.Mock.Memory.{listed}
use quotacontrol.Mock.Memory.Keyed.{
  Keyed, Keyed-insert, active_keys, Listed, Stands, active_keys-Stands,
}
use quotacontrol.Server.Keys.{first_default}
use quotacontrol.Server.Keys.Effects.{put, retired, without_key}

-- Each key stands once and under its own name, every default key is active, and no project has two.
pub record IsSound (m : Assoc Text AccessKey) : Type 0 where
  pub keyed : Keyed m
  pub active :
      (a : Text) (k : AccessKey) → lookup a m ≡ some k → k.is_default ≡ true → k.active ≡ true
  pub single :
      (a b : Text) (j k : AccessKey)
      → lookup a m ≡ some j
      → lookup b m ≡ some k
      → j.is_default ≡ true
      → k.is_default ≡ true
      → j.project_id ≡ k.project_id
      → a ≡ b

-- No key of the project, but for the one named, is a default key.
pub record NoOther (p : ℕ) (key : Text) (m : Assoc Text AccessKey) : Type 0 where
  pub at :
      (a : Text) (j : AccessKey)
      → lookup a m ≡ some j
      → j.project_id ≡ p
      → a ≢ key
      → j.is_default ≡ false

pub put-IsSound :
    (k : AccessKey) (m : Assoc Text AccessKey)
    → IsSound m
    → (k.is_default ≡ true → k.active ≡ true)
    → (k.is_default ≡ true → NoOther k.project_id k.access_key m)
    → IsSound (put k m)
put-IsSound k m s act alone = record {
  keyed = Keyed-insert k m s.keyed;
  active = λ a j e d. ground (arith, s.active a j, lookup-insert k.access_key a k m);
  single = λ a b i j e f d d' q. ground (
    arith,
    s.single a b i j,
    lookup-insert k.access_key a k m,
    lookup-insert k.access_key b k m,
    text_beq_iff k.access_key a,
    text_beq_iff k.access_key b,
    λ (x : k.is_default ≡ true). (alone x).at a i,
    λ (x : k.is_default ≡ true). (alone x).at b j,
  );
}

pub first_default-some :
    (P : AccessKey → Type 0) (l : List AccessKey) (d : AccessKey)
    → first_default l ≡ some d
    → Listed P l
    → P d × (d.is_default ≡ true)
unfolding first_default
first_default-some P [] d e h = cc
first_default-some P (k ∷ l) d e h = elim (Bool-cases k.is_default) [
  | inl t ↦ let same : k ≡ d = ground arith in rw (← same) (h.0, t)
  | inr f ↦ first_default-some P l d (ground arith) h.1
]

-- Where no active key of a project is a default one, none is.
pub first_default-none :
    (p : ℕ) (m : Assoc Text AccessKey) (a : Text) (k : AccessKey)
    → Keyed m
    → first_default (active_keys p m) ≡ none
    → lookup a m ≡ some k
    → k.project_id ≡ p
    → k.active ≡ true
    → k.is_default ≡ false
unfolding lookup first_default listed
first_default-none p [] a k h e f q r = cc
first_default-none p ((b, j) ∷ m) a k h e f q r =
    ground (arith, first_default-none p m a k h.2, nat_beq_iff j.project_id p)

pub NoOther-of_none :
    (p : ℕ) (key : Text) (m : Assoc Text AccessKey)
    → IsSound m
    → first_default (active_keys p m) ≡ none
    → NoOther p key m
NoOther-of_none p key m s e = record {
  at = λ a j f q ne. elim (Bool-cases j.is_default) [
    | inl t ↦ first_default-none p m a j s.keyed e f q (s.active a j f t)
    | inr f ↦ f
  ];
}

-- Where the default key of a project is put back with its mark cleared, no default key is left.
pub NoOther-cleared :
    (k : AccessKey) (key : Text) (m : Assoc Text AccessKey) (d : AccessKey)
    → IsSound m
    → lookup d.access_key m ≡ some d
    → d.is_default ≡ true
    → k.access_key ≡ d.access_key
    → k.is_default ≡ false
    → NoOther d.project_id key (put k m)
NoOther-cleared k key m d s found t same f = record {
  at = λ a j e q ne. elim (Bool-cases j.is_default) [
    | inl u ↦ ground (
      arith,
      lookup-insert k.access_key a k m,
      text_beq_iff k.access_key a,
      s.single a d.access_key j d,
    )
    | inr f ↦ f
  ];
}

-- The default key that the active keys of a project show.
pub default-Stands :
    (p : ℕ) (m : Assoc Text AccessKey) (d : AccessKey)
    → IsSound m
    → first_default (active_keys p m) ≡ some d
    → Stands p m d × (d.is_default ≡ true)
default-Stands p m d s e =
    first_default-some (Stands p m) (active_keys p m) d e (active_keys-Stands p m s.keyed)

pub retired-IsSound :
    (k : AccessKey) (m : Assoc Text AccessKey) → IsSound m → IsSound (without_key k m)
retired-IsSound k m s = put-IsSound (retired k) m s (λ e. cc) (λ e. cc)

pub cleared-IsSound :
    (d : AccessKey) (m : Assoc Text AccessKey)
    → IsSound m
    → IsSound (put (record d { is_default = false }) m)
cleared-IsSound d m s = put-IsSound (record d { is_default = false }) m s (λ e. cc) (λ e. cc)

pub NoOther-put :
    (p : ℕ) (k : AccessKey) (m : Assoc Text AccessKey)
    → NoOther p k.access_key m
    → NoOther p k.access_key (put k m)
NoOther-put p k m h = record {
  at = λ a j e q ne.
      ground (arith, lookup-insert k.access_key a k m, text_beq_iff k.access_key a, h.at a j);
}

first_default-empty : (l : List AccessKey) → is_empty l ≡ true → first_default l ≡ none
unfolding first_default
first_default-empty [] e = refl
first_default-empty (k ∷ l) e = cc

-- A new key is the default one only where its project had no active key.
pub made-IsSound :
    (k : AccessKey) (m : Assoc Text AccessKey)
    → IsSound m
    → k.active ≡ true
    → k.is_default ≡ is_empty (active_keys k.project_id m)
    → IsSound (put k m)
made-IsSound k m s act e =
    put-IsSound k m s (λ _. act)
      (λ d.
        NoOther-of_none k.project_id k.access_key m s
          (first_default-empty (active_keys k.project_id m) (sym e ∙ d)))
