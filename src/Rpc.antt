-- ===== src/Rpc.antt =====
-- The RPC layer of proto/quotacontrol.gen.go: HTTP messages, and the interface that the server
-- implements and the client offers. The interfaces QuotaControlClient and QuotaControlServer have the
-- same methods; the arguments of one stand in a tuple, in the order of the source. `B` are byte
-- strings. Error messages, and headers but the content type, are left out.
pub mod Wire
pub mod MediaType
pub mod Server
pub mod Http
pub mod Client
pub mod Adapters
pub mod RoundTrip
pub mod Faithful
pub mod Losses
pub mod Fetches
pub mod Unknown
pub mod Versions
use quotacontrol.Prelude.{
  ℕ, Bool, true, false, Option, none, some, List, [], ◌∷◌, ◌++◌, nat_beq, ◌≡◌, ◌==◌, not,
  if◌then◌else◌,
}
use quotacontrol.Prelude.Int.{ℤ}
use quotacontrol.Prelude.Text.{Text, text_eq, codes, text_beq}
use quotacontrol.Prelude.Assoc.{Assoc, lookup}
use quotacontrol.Time.{Time}
use quotacontrol.Exec.{Exec, Attempt, got}
use quotacontrol.Proto.Errors.{Error, Result, ok, err}
use quotacontrol.Proto.Types.{
  Service, EventType, Cycle, AccessKey, AccessUsage, AccessQuota, ProjectStatus, UserPermission,
  unauthorized, ResourceAccess,
}

-- `json.Marshal` and `json.Unmarshal` of the payloads of one method.
pub record Json (B A R : Type 0) : Type 0 where
  pub put_args : A → Attempt B
  pub get_args : B → Attempt A
  pub put_reply : R → Attempt B
  pub get_reply : B → Attempt R

-- What was encoded is decoded again: arguments in `P`, and replies in `Q`.
pub record JsonLaws {B A R : Type 0} (j : Json B A R) (P : A → Type 0) (Q : R → Type 0)
    : Type 0 where
  pub args_back : (a : A) → P a → (b : B) × (j.put_args a ≡ got b) × (j.get_args b ≡ got a)
  pub reply_back : (r : R) → Q r → (b : B) × (j.put_reply r ≡ got b) × (j.get_reply b ≡ got r)

-- A method of the interface, and one whose value may stand beside an error.
abbrev pub Call : Type 0 → Type 0 → Type 0 → Type 0
Call W A R = A → Exec W R

abbrev pub CallBeside : Type 0 → Type 0 → Type 0 → Type 0
CallBeside W A R = A → Exec W (R × Option Error)

pub record QuotaControl (W : Type 0) : Type 0 where
  pub ping : Call W (Unit {0}) Text
  pub get_project_status : Call W ℕ ProjectStatus
  pub get_access_key : Call W Text AccessKey
  pub create_access_key : Call W (ℕ × Text × Bool × List Text × List Service) AccessKey
  pub update_access_key :
      Call W
        (Text × Option Text × Option Bool × Option (List Text) × Option (List Service))
        AccessKey
  pub list_access_keys : Call W (ℕ × Option Bool × Option Service) (List AccessKey)
  pub rotate_access_key : Call W Text AccessKey
  pub disable_access_key : Call W Text Bool
  pub get_default_access_key : Call W ℕ AccessKey
  pub set_default_access_key : Call W (ℕ × Text) Bool
  pub get_project_quota : Call W (ℕ × Time) AccessQuota
  pub get_access_quota : Call W (Text × Time) AccessQuota
  pub clear_access_quota_cache : Call W ℕ Bool
  pub get_usage : Call W (ℕ × Option Text × Option Service × Option Time × Option Time) ℤ
  pub clear_usage : Call W (ℕ × Option Service × Time) Bool
  pub sync_project_usage : CallBeside W (Service × Time × Assoc ℕ ℤ) (Assoc ℕ Bool)
  pub sync_access_key_usage : CallBeside W (Service × Time × Assoc Text ℤ) (Assoc Text Bool)
  pub notify_event : Call W (ℕ × Service × EventType) Bool
  pub get_user_permission : CallBeside W (ℕ × Text) (UserPermission × Option ResourceAccess)
  pub get_account_usage : Call W (ℕ × Option Service × Option Time × Option Time) AccessUsage
  pub get_access_key_usage : Call W (Text × Option Service × Option Time × Option Time) AccessUsage
  pub get_async_usage : Call W (ℕ × Option Service × Option Time × Option Time) AccessUsage
  pub update_project_usage : CallBeside W (Service × Time × Assoc ℕ AccessUsage) (Assoc ℕ Bool)
  pub update_key_usage : CallBeside W (Service × Time × Assoc Text AccessUsage) (Assoc Text Bool)
  pub prepare_usage : Call W (ℕ × Option Service × Option Cycle × Time) Bool

pub record Codecs (B : Type 0) : Type 0 where
  pub ping : Json B (Unit {0}) Text
  pub get_project_status : Json B ℕ ProjectStatus
  pub get_access_key : Json B Text AccessKey
  pub create_access_key : Json B (ℕ × Text × Bool × List Text × List Service) AccessKey
  pub update_access_key :
      Json B
        (Text × Option Text × Option Bool × Option (List Text) × Option (List Service))
        AccessKey
  pub list_access_keys : Json B (ℕ × Option Bool × Option Service) (List AccessKey)
  pub rotate_access_key : Json B Text AccessKey
  pub disable_access_key : Json B Text Bool
  pub get_default_access_key : Json B ℕ AccessKey
  pub set_default_access_key : Json B (ℕ × Text) Bool
  pub get_project_quota : Json B (ℕ × Time) AccessQuota
  pub get_access_quota : Json B (Text × Time) AccessQuota
  pub clear_access_quota_cache : Json B ℕ Bool
  pub get_usage : Json B (ℕ × Option Text × Option Service × Option Time × Option Time) ℤ
  pub clear_usage : Json B (ℕ × Option Service × Time) Bool
  pub sync_project_usage : Json B (Service × Time × Assoc ℕ ℤ) (Assoc ℕ Bool)
  pub sync_access_key_usage : Json B (Service × Time × Assoc Text ℤ) (Assoc Text Bool)
  pub notify_event : Json B (ℕ × Service × EventType) Bool
  pub get_user_permission : Json B (ℕ × Text) (UserPermission × Option ResourceAccess)
  pub get_account_usage : Json B (ℕ × Option Service × Option Time × Option Time) AccessUsage
  pub get_access_key_usage : Json B (Text × Option Service × Option Time × Option Time) AccessUsage
  pub get_async_usage : Json B (ℕ × Option Service × Option Time × Option Time) AccessUsage
  pub update_project_usage : Json B (Service × Time × Assoc ℕ AccessUsage) (Assoc ℕ Bool)
  pub update_key_usage : Json B (Service × Time × Assoc Text AccessUsage) (Assoc Text Bool)
  pub prepare_usage : Json B (ℕ × Option Service × Option Cycle × Time) Bool

-- A method's value is dropped where there is an error beside it.
abbrev pub only_value {ℓ} : {A : Type ℓ} → A × Option Error → Result A
only_value (a, none) = ok a
only_value (a, some e) = err e

pub record Request (B : Type 0) : Type 0 where
  pub verb : Text
  pub path : Text
  pub content_type : Text
  pub body : Attempt B

pub record Response (B : Type 0) : Type 0 where
  pub status : ℕ
  pub body : B

-- `QuotaControlPathPrefix`
abbrev pub path_prefix : Text
path_prefix = codes "/rpc/QuotaControl/"
