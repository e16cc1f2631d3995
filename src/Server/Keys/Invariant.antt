-- ===== src/Server/Keys/Invariant.antt =====
-- The operations of server.go on access keys and the default keys, on the store in memory.
use quotacontrol.Prelude.{
  ℕ, ◌≡◌, ◌≢◌, refl, sym, subst, ◌∙◌, Bool, true, false, Option, none, some, List, [], ◌∷◌, ◌==◌,
  nat_eq, arith, length, is_empty, nat_beq_iff, nat_beq, Option-cases, Bool-cases, inl, inr,
}
use quotacontrol.Prelude.Text.{Text, text_eq}
use quotacontrol.Prelude.Assoc.{Assoc, lookup}
use quotacontrol.Proto.Errors.{Result, ok, panic}
use quotacontrol.Proto.Types.{Service, AccessKey}
use quotacontrol.Cache.{Cache}
use quotacontrol.Mock.Memory.{MemoryStore}
use quotacontrol.Mock.Memory.Keyed.{key-lookup, active_keys, Listed, Stands, active_keys-Stands}
use quotacontrol.Mock.Wiring.{beside, in_memory}
use quotacontrol.Server.{External}
use quotacontrol.Server.Keys.{
  first_default, or_old, create_access_key, rotate_access_key, set_default_access_key,
  disable_access_key, restore_default,
}
use quotacontrol.Server.Keys.Effects.{
  put, with_keys, dropped, made, retired, without_key, set_default_refused, set_default_missing,
  set_default_none, set_default_run, create_run, rotate_run,
}
use quotacontrol.Server.Keys.Disabling.{
  promoted, restore_run, disable_run, disable_last, disable_missing,
}
use quotacontrol.Server.Keys.Defaults.{
  IsSound, NoOther, NoOther-put, made-IsSound, put-IsSound, NoOther-of_none, NoOther-cleared,
  default-Stands, retired-IsSound, cleared-IsSound,
}

module _ {C : Type 0} (ext : External (MemoryStore × C)) (cache : Cache C) (key_version : ℕ)
    (no_panic : (k : Text) (c : C) → (cache.quota.delete_access_quota k c).0 ≢ panic) where
  abbrev pub keys_after : {A : Type 0} → Result A × (MemoryStore × C) → Assoc Text AccessKey
  keys_after (r, (m, c)) = m.access_keys

  swapped-IsSound :
      (p : ℕ) (k d : AccessKey) (m : Assoc Text AccessKey)
      → IsSound m
      → k.project_id ≡ p
      → k.active ≡ true
      → first_default (active_keys p m) ≡ some d
      → IsSound (put (record k { is_default = true }) (put (record d { is_default = false }) m))
  swapped-IsSound p k d m s own act e =
      let (stands, default) = default-Stands p m d s e in
      let d' : AccessKey = record d { is_default = false } in
      put-IsSound (record k { is_default = true }) (put d' m) (cleared-IsSound d m s) (λ _. act)
        (λ _.
          subst (λ q. NoOther q k.access_key (put d' m)) (stands.1 ∙ sym own)
            (NoOther-cleared d' k.access_key m d s stands.0 default refl refl))

  set_default_owned :
      (p : ℕ) (key : Text) (k : AccessKey) (m : MemoryStore) (c : C)
      → IsSound m.access_keys
      → k.active ≡ true
      → lookup key m.access_keys ≡ some k
      → k.project_id ≡ p
      → IsSound (
          keys_after (set_default_access_key ext (beside cache) in_memory key_version p key (m, c)))
  set_default_owned p key k m c s act e own =
      elim (Option-cases (first_default (active_keys p m.access_keys))) [
        | inl f ↦ rw (set_default_none ext cache key_version no_panic p key k m c e own f) s
        | inr (d, f) ↦ elim (Bool-cases (d.access_key == k.access_key)) [
          | inl same ↦
              rw (set_default_run ext cache key_version no_panic p key k d m c e own f, same) s
          | inr differ ↦
              rw (set_default_run ext cache key_version no_panic p key k d m c e own f, differ)
                (swapped-IsSound p k d m.access_keys s own act f)
        ]
      ]

  -- On the store in memory, with a cache that does not panic: if every default key is active and no
  -- project has two, the same holds after SetDefaultAccessKey of a key that is active or missing.
  pub set_default-IsSound :
      (p : ℕ) (key : Text) (m : MemoryStore) (c : C)
      → IsSound m.access_keys
      → ((k : AccessKey) → lookup key m.access_keys ≡ some k → k.active ≡ true)
      → IsSound (
          keys_after (set_default_access_key ext (beside cache) in_memory key_version p key (m, c)))
  set_default-IsSound p key m c s act = elim (Option-cases (lookup key m.access_keys)) [
    | inl e ↦ rw (set_default_missing ext cache key_version no_panic p key m c e) s
    | inr (k, e) ↦ elim (Bool-cases (k.project_id == p)) [
      | inl own ↦ set_default_owned p key k m c s (act k e) e ((nat_beq_iff k.project_id p).0 own)
      | inr other ↦
          rw (set_default_refused ext cache key_version no_panic p key k m c e (λ q. ground arith))
            s
    ]
  ]

  -- On the store in memory, with a cache that does not panic, for valid origins and a new key that
  -- is generated without change to the store: if every default key is active and no project has
  -- two, the same holds after CreateAccessKey.
  pub create-IsSound :
      (version : Option ℕ) (p : ℕ) (name : Text) (require_origin : Bool) (given origins : List Text)
      (services : List Service) (key : Text) (m : MemoryStore) (c c' : C)
      → ext.new_origins given ≡ ok origins
      → ext.generate_access_key (or_old version key_version) p (m, c) ≡ (ok key, (m, c'))
      → IsSound m.access_keys
      → IsSound (
          keys_after (
            create_access_key ext
              (beside cache)
              in_memory
              key_version
              version
              p
              name
              require_origin
              given
              services
              (m, c)))
  create-IsSound version p name require_origin given origins services key m c c' valid fresh s =
      rw
        (create_run ext cache key_version no_panic version p name require_origin given origins
          services key m c c' valid fresh)
        (made-IsSound _ m.access_keys s refl refl)

  -- On the store in memory, with a cache that does not panic, for a key that is there, origins that
  -- are valid and a new key that is generated without change to the store: if every default key is
  -- active and no project has two, the same holds after RotateAccessKey.
  pub rotate-IsSound :
      (version : Option ℕ) (key fresh : Text) (k : AccessKey) (origins : List Text)
      (m : MemoryStore) (c c' : C)
      → lookup key m.access_keys ≡ some k
      → ext.new_origins (ext.to_strings k.allowed_origins) ≡ ok origins
      → let m' = with_keys m (without_key k m.access_keys) in
        ext.generate_access_key
            (or_old version key_version)
            k.project_id
            (m', dropped ext cache key_version no_panic k.access_key c)
          ≡ (ok fresh, (m', c'))
        → IsSound m.access_keys
        → IsSound (
            keys_after
              (rotate_access_key ext (beside cache) in_memory key_version version key (m, c)))
  rotate-IsSound version key fresh k origins m c c' found valid generated s =
      let m' = without_key k m.access_keys in
      let s' = retired-IsSound k m.access_keys s in
      let new =
        made k.project_id k.display_name fresh k.require_origin origins k.allowed_services in
      let first = new (is_empty (active_keys k.project_id m')) in
      let s'' = made-IsSound first m' s' refl refl in
      let own = key-lookup key k m.access_keys s.keyed found in
      let run =
        rotate_run ext cache key_version no_panic version key fresh k origins m c c' found valid
          generated in
      elim (Bool-cases k.is_default) [
        | inl t ↦
            rw (run, t)
              (put-IsSound (new true) (put first m') s'' (λ _. refl)
                (λ _. NoOther-put k.project_id first m' (
                  NoOther-cleared (retired k) fresh m.access_keys k s
                    (subst (λ a. lookup a m.access_keys ≡ some k) (sym own) found) t refl refl)))
        | inr f ↦ rw (run, f) s''
      ]

  promoted-IsSound :
      (p : ℕ) (l : List AccessKey) (m : MemoryStore) (c : C)
      → IsSound m.access_keys
      → active_keys p m.access_keys ≡ l
      → first_default (active_keys p m.access_keys) ≡ none
      → IsSound (keys_after (promoted ext cache key_version no_panic l m c))
  promoted-IsSound p [] m c s e f = s
  promoted-IsSound p (j ∷ rest) m c s e f =
      let stands : Stands p m.access_keys j =
        (subst (Listed (Stands p m.access_keys)) e
          (active_keys-Stands p m.access_keys s.keyed)).0 in
      put-IsSound (record j { is_default = true }) m.access_keys s (λ _. stands.2)
        (λ _.
          subst (λ q. NoOther q j.access_key m.access_keys) (sym stands.1)
            (NoOther-of_none p j.access_key m.access_keys s f))

  restore-IsSound :
      (p : ℕ) (m : MemoryStore) (c : C)
      → IsSound m.access_keys
      → IsSound (keys_after (restore_default ext (beside cache) in_memory key_version p (m, c)))
  restore-IsSound p m c s =
      let run = restore_run ext cache key_version no_panic p m c in
      elim (Option-cases (first_default (active_keys p m.access_keys))) [
        | inl f ↦ rw (run, f) (promoted-IsSound p (active_keys p m.access_keys) m c s refl f)
        | inr (d, f) ↦ rw (run, f) s
      ]

  -- On the store in memory, with a cache that does not panic: if every default key is active and no
  -- project has two, the same holds after DisableAccessKey, whatever its result.
  pub disable-IsSound :
      (key : Text) (m : MemoryStore) (c : C)
      → IsSound m.access_keys
      → IsSound
          (keys_after (disable_access_key ext (beside cache) in_memory key_version key (m, c)))
  disable-IsSound key m c s = elim (Option-cases (lookup key m.access_keys)) [
    | inl e ↦ rw (disable_missing ext cache key_version no_panic key m c e) s
    | inr (k, e) ↦ elim (Bool-cases (nat_beq (length (active_keys k.project_id m.access_keys)) 1)) [
      | inl one ↦
          rw (disable_last ext cache key_version no_panic key k m c e ((nat_beq_iff _ 1).0 one)) s
      | inr more ↦ rw (disable_run ext cache key_version no_panic key k m c e (λ q. ground arith)) (
          restore-IsSound k.project_id (with_keys m (without_key k m.access_keys)) _
            (retired-IsSound k m.access_keys s))
    ]
  ]
