-- ===== src/Usage/Recorded.antt =====
-- What a tracker has recorded for an access key at a time.
use quotacontrol.Prelude.{
  ℕ, ◌≡◌, ◌∙◌, refl, nat_eq, Bool, true, false, ◌&&◌, Option, none, some, [], ◌∷◌, arith, ◌==◌,
  if◌then◌else◌,
}
use quotacontrol.Prelude.Int.{ℤ, int_eq, int_beq_iff, add64}
use quotacontrol.Prelude.Text.{Text, text_eq, text_beq_iff}
use quotacontrol.Prelude.Assoc.{Assoc, lookup, insert, lookup-insert}
use quotacontrol.Time.{Time}
use quotacontrol.Usage.{Record, Tracker, or_zero, or_new, add_to, add_key_usage, add_project_usage}
use quotacontrol.Usage.Sync.{add_back_keys, add_back_projects}

abbrev pub recorded : Text → Time → Tracker → ℤ
recorded k t u = or_zero (lookup k (or_new (lookup t u)).by_access_key)

pub recorded-add_key_usage :
    (k j : Text) (now t : Time) (n : ℤ) (u : Tracker)
    → recorded j t (add_key_usage k now n u)
      ≡ (if (now == t) && (k == j) then add64 (recorded j t u) n else recorded j t u)
unfolding add_key_usage add_to
recorded-add_key_usage k j now t n u =
    let r = or_new (lookup now u) in
    let m = add64 (or_zero (lookup k r.by_access_key)) n in
    let q : Record = record r { by_access_key = insert k m r.by_access_key } in
    ground (
      arith,
      lookup-insert now t q u,
      lookup-insert k j m r.by_access_key,
      int_beq_iff now t,
      text_beq_iff k j,
    )

-- Answers that name each key once.
abbrev pub Once : Assoc Text Bool → Type 0
Once [] = Unit {0}
Once ((k, b) ∷ rest) = (lookup k rest ≡ none) × Once rest

abbrev pub is_failed : Option Bool → Bool
is_failed (some false) = true
is_failed _ = false

-- For answers that name each key once: the loop over the answers of a sync adds the reported usage
-- of exactly the keys answered with false back to the record of the time it was reported for, and
-- leaves the usage of every other key and time as it was.
pub recorded-add_back_keys :
    (now t : Time) (usages : Assoc Text ℤ) (answers : Assoc Text Bool) (u : Tracker) (j : Text)
    → Once answers
    → recorded j t (add_back_keys now usages answers u) ≡ (
        if (now == t) && is_failed (lookup j answers)
        then add64 (recorded j t u) (or_zero (lookup j usages))
        else recorded j t u)
unfolding add_back_keys lookup
recorded-add_back_keys now t usages [] u j once = ground arith
recorded-add_back_keys now t usages ((k, true) ∷ rest) u j once =
    ground (arith, recorded-add_back_keys now t usages rest u j once.1, text_beq_iff k j)
recorded-add_back_keys now t usages ((k, false) ∷ rest) u j once =
    let n = or_zero (lookup k usages) in
    ground (
      arith,
      recorded-add_back_keys now t usages rest (add_key_usage k now n u) j once.1,
      recorded-add_key_usage k j now t n u,
      text_beq_iff k j,
    )

recorded-add_project_usage :
    (p : ℕ) (j : Text) (now t : Time) (n : ℤ) (u : Tracker)
    → recorded j t (add_project_usage p now n u) ≡ recorded j t u
unfolding add_project_usage
recorded-add_project_usage p j now t n u =
    let r = or_new (lookup now u) in
    let q : Record = record r { by_project_id = add_to p n r.by_project_id } in
    ground (arith, lookup-insert now t q u, int_beq_iff now t)

pub recorded-add_back_projects :
    (now t : Time) (m : Assoc ℕ ℤ) (answers : Assoc ℕ Bool) (u : Tracker) (j : Text)
    → recorded j t (add_back_projects now m answers u) ≡ recorded j t u
unfolding add_back_projects
recorded-add_back_projects now t m [] u j = refl
recorded-add_back_projects now t m ((k, true) ∷ rest) u j =
    recorded-add_back_projects now t m rest u j
recorded-add_back_projects now t m ((k, false) ∷ rest) u j =
    recorded-add_back_projects now t m rest (add_project_usage k now (or_zero (lookup k m)) u) j
    ∙ recorded-add_project_usage k j now t (or_zero (lookup k m)) u
