-- ===== src/Usage.antt =====
-- internal/usage/usage.go: the usage that a client has spent and not yet reported.
pub mod Sync
pub mod Recorded
pub mod Loss
pub mod Balance
pub mod Logged
pub mod Conserved
use quotacontrol.Prelude.{
  ℕ, Option, none, some, List, [], ◌∷◌, ◌==◌, nat_eq, Eq, if◌then◌else◌, Bool, true, false,
}
use quotacontrol.Prelude.Int.{ℤ, pos, int_eq, add64}
use quotacontrol.Prelude.Text.{Text, text_eq}
use quotacontrol.Prelude.Assoc.{Assoc, lookup, insert}
use quotacontrol.Time.{Time}

pub record Record : Type 0 where
  pub by_project_id : Assoc ℕ ℤ
  pub by_access_key : Assoc Text ℤ

abbrev pub new_record : Record
new_record = record { by_project_id = []; by_access_key = [] }

-- Times are compared as the instants that they are.
abbrev pub Tracker : Type 0
Tracker = Assoc Time Record

abbrev pub new_tracker : Tracker
new_tracker = []

-- A number read from a map, 0 where it is missing.
abbrev pub or_zero : Option ℤ → ℤ
or_zero none = pos 0
or_zero (some n) = n

-- `m[k] += n`
unfoldable pub add_to {ℓ} : {K : Type ℓ} ⦃e : Eq K⦄ → K → ℤ → Assoc K ℤ → Assoc K ℤ
add_to k n m = insert k (add64 (or_zero (lookup k m)) n) m

abbrev pub or_new : Option Record → Record
or_new none = new_record
or_new (some r) = r

unfoldable pub add_key_usage : Text → Time → ℤ → Tracker → Tracker
add_key_usage access_key now usage u =
    let r = or_new (lookup now u) in
    insert now (record r { by_access_key = add_to access_key usage r.by_access_key }) u

unfoldable pub add_project_usage : ℕ → Time → ℤ → Tracker → Tracker
add_project_usage project_id now usage u =
    let r = or_new (lookup now u) in
    insert now (record r { by_project_id = add_to project_id usage r.by_project_id }) u

-- What was recorded, and the tracker that is left.
unfoldable pub get_updates : Tracker → Tracker × Tracker
get_updates u = (u, new_tracker)
