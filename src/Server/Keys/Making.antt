-- ===== src/Server/Keys/Making.antt =====
-- The operations of server.go that make access keys, on the store in memory, whatever their result.
use quotacontrol.Prelude.{
  ℕ, ◌≡◌, ◌≢◌, ◌⊎◌, refl, ap, Bool, Option, none, some, List, arith, Option-cases, inl, inr,
}
use quotacontrol.Prelude.Text.{Text, text_eq}
use quotacontrol.Prelude.Assoc.{lookup}
use quotacontrol.Proto.Errors.{Error, Result, ok, err, panic}
use quotacontrol.Proto.Types.{Service, AccessKey}
use quotacontrol.Cache.{Cache}
use quotacontrol.Mock.Memory.{MemoryStore, list_access_keys, find_access_key}
use quotacontrol.Mock.Wiring.{beside, in_memory}
use quotacontrol.Exec.{Result-cases}
use quotacontrol.Server.{External}
use quotacontrol.Server.Keys.{or_old, create_access_key, rotate_access_key}
use quotacontrol.Server.Keys.Effects.{with_keys, without_key, retired, dropped, update_key_run}
use quotacontrol.Server.Keys.Defaults.{IsSound, retired-IsSound}
use quotacontrol.Server.Keys.Invariant.{keys_after, create-IsSound, rotate-IsSound}

module _ {C : Type 0} (ext : External (MemoryStore × C)) (cache : Cache C) (key_version : ℕ)
    (no_panic : (k : Text) (c : C) → (cache.quota.delete_access_quota k c).0 ≢ panic)
    (store_kept : (v p : ℕ) (m : MemoryStore) (c : C)
      → (ext.generate_access_key v p (m, c)).1.0 ≡ m) where
  -- The keys after a creation that did not make a key are those before it.
  create_stopped :
      (version : Option ℕ) (p : ℕ) (name : Text) (require_origin : Bool) (given : List Text)
      (services : List Service) (m : MemoryStore) (c : C)
      → ((e : Error) × (ext.new_origins given ≡ err e)) ⊎ (ext.new_origins given ≡ panic)
      → keys_after ext cache key_version no_panic (
          create_access_key ext
            (beside cache)
            in_memory
            key_version
            version
            p
            name
            require_origin
            given
            services
            (m, c))
        ≡ m.access_keys
  unfolding create_access_key list_access_keys
  create_stopped version p name require_origin given services m c (inl (e, bad)) =
      ground (arith, bad)
  create_stopped version p name require_origin given services m c (inr bad) = ground (arith, bad)

  create_failed :
      (version : Option ℕ) (p : ℕ) (name : Text) (require_origin : Bool) (given origins : List Text)
      (services : List Service) (m : MemoryStore) (c : C) (r : Result Text × (MemoryStore × C))
      → ext.new_origins given ≡ ok origins
      → ext.generate_access_key (or_old version key_version) p (m, c) ≡ r
      → ((e : Error) × (r.0 ≡ err e)) ⊎ (r.0 ≡ panic)
      → keys_after ext cache key_version no_panic (
          create_access_key ext
            (beside cache)
            in_memory
            key_version
            version
            p
            name
            require_origin
            given
            services
            (m, c))
        ≡ r.1.0.access_keys
  unfolding create_access_key list_access_keys
  create_failed version p name require_origin given origins services m c (ok k, s) valid gen
        (inl (e, bad)) =
      cc bad
  create_failed version p name require_origin given origins services m c (ok k, s) valid gen
        (inr bad) =
      cc bad
  create_failed version p name require_origin given origins services m c (err f, s) valid gen bad =
      ground (arith, valid, gen)
  create_failed version p name require_origin given origins services m c (panic, s) valid gen bad =
      ground (arith, valid, gen)

  pub create-IsSound_always :
      (version : Option ℕ) (p : ℕ) (name : Text) (require_origin : Bool) (given : List Text)
      (services : List Service) (m : MemoryStore) (c : C)
      → IsSound m.access_keys
      → IsSound (
          keys_after ext cache key_version no_panic (
            create_access_key ext
              (beside cache)
              in_memory
              key_version
              version
              p
              name
              require_origin
              given
              services
              (m, c)))
  create-IsSound_always version p name require_origin given services m c s =
      let gen = ext.generate_access_key (or_old version key_version) p (m, c) in
      let kept : gen.1.0.access_keys ≡ m.access_keys =
        ap (λ x. x.access_keys) (store_kept (or_old version key_version) p m c) in
      elim (Result-cases (ext.new_origins given)) [
        | inr bad ↦ rw (create_stopped version p name require_origin given services m c bad) s
        | inl (origins, valid) ↦ elim (Result-cases gen.0) [
          | inr bad ↦
              rw
                (
                  create_failed version p name require_origin given origins services m c gen valid
                      refl bad,
                  kept,
                )
                s
          | inl (key, made_key) ↦
              create-IsSound ext cache key_version no_panic version p name require_origin given
                origins services key m c gen.1.1 valid
                (λ i. (made_key i, (store_kept (or_old version key_version) p m c i, gen.1.1))) s
        ]
      ]

  -- The state after the first step of a rotation.
  abbrev retiring : AccessKey → MemoryStore → C → MemoryStore × C
  retiring k m c = (
    with_keys m (without_key k m.access_keys),
    dropped ext cache key_version no_panic k.access_key c,
  )

  rotate_missing :
      (version : Option ℕ) (key : Text) (m : MemoryStore) (c : C)
      → lookup key m.access_keys ≡ none
      → keys_after ext cache key_version no_panic
          (rotate_access_key ext (beside cache) in_memory key_version version key (m, c))
        ≡ m.access_keys
  unfolding rotate_access_key find_access_key
  rotate_missing version key m c absent = ground (arith, absent)

  rotate_stopped :
      (version : Option ℕ) (key : Text) (k : AccessKey) (m : MemoryStore) (c : C)
      → lookup key m.access_keys ≡ some k
      → ((e : Error) × (ext.new_origins (ext.to_strings k.allowed_origins) ≡ err e))
        ⊎ (ext.new_origins (ext.to_strings k.allowed_origins) ≡ panic)
      → keys_after ext cache key_version no_panic
          (rotate_access_key ext (beside cache) in_memory key_version version key (m, c))
        ≡ without_key k m.access_keys
  unfolding rotate_access_key find_access_key create_access_key list_access_keys
  rotate_stopped version key k m c found (inl (e, bad)) =
      ground (arith, found, bad, update_key_run ext cache key_version no_panic (retired k) m c)
  rotate_stopped version key k m c found (inr bad) =
      ground (arith, found, bad, update_key_run ext cache key_version no_panic (retired k) m c)

  rotate_failed :
      (version : Option ℕ) (key : Text) (k : AccessKey) (origins : List Text) (m : MemoryStore)
      (c : C) (r : Result Text × (MemoryStore × C))
      → lookup key m.access_keys ≡ some k
      → ext.new_origins (ext.to_strings k.allowed_origins) ≡ ok origins
      → ext.generate_access_key (or_old version key_version) k.project_id (retiring k m c) ≡ r
      → ((e : Error) × (r.0 ≡ err e)) ⊎ (r.0 ≡ panic)
      → keys_after ext cache key_version no_panic
          (rotate_access_key ext (beside cache) in_memory key_version version key (m, c))
        ≡ r.1.0.access_keys
  unfolding rotate_access_key find_access_key create_access_key list_access_keys
  rotate_failed version key k origins m c (ok a, s) found valid gen (inl (e, bad)) = cc bad
  rotate_failed version key k origins m c (ok a, s) found valid gen (inr bad) = cc bad
  rotate_failed version key k origins m c (err f, s) found valid gen bad =
      ground
        (arith, found, valid, gen, update_key_run ext cache key_version no_panic (retired k) m c)
  rotate_failed version key k origins m c (panic, s) found valid gen bad =
      ground
        (arith, found, valid, gen, update_key_run ext cache key_version no_panic (retired k) m c)

  pub rotate-IsSound_always :
      (version : Option ℕ) (key : Text) (m : MemoryStore) (c : C)
      → IsSound m.access_keys
      → IsSound (
          keys_after ext cache key_version no_panic
            (rotate_access_key ext (beside cache) in_memory key_version version key (m, c)))
  rotate-IsSound_always version key m c s = elim (Option-cases (lookup key m.access_keys)) [
    | inl absent ↦ rw (rotate_missing version key m c absent) s
    | inr (k, found) ↦
        let s' = retired-IsSound k m.access_keys s in
        let v = or_old version key_version in
        let gen = ext.generate_access_key v k.project_id (retiring k m c) in
        let kept = store_kept v k.project_id (retiring k m c).0 (retiring k m c).1 in
        let kept_keys : gen.1.0.access_keys ≡ without_key k m.access_keys =
          ap (λ x. x.access_keys) kept in
        elim (Result-cases (ext.new_origins (ext.to_strings k.allowed_origins))) [
          | inr bad ↦ rw (rotate_stopped version key k m c found bad) s'
          | inl (origins, valid) ↦ elim (Result-cases gen.0) [
            | inr bad ↦
                rw (rotate_failed version key k origins m c gen found valid refl bad, kept_keys) s'
            | inl (fresh, is_made) ↦
                rotate-IsSound ext cache key_version no_panic version key fresh k origins m c
                  gen.1.1 found valid (λ i. (is_made i, (kept i, gen.1.1))) s
          ]
        ]
  ]
