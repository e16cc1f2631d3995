-- ===== src/Tests/Bodies.antt =====
-- Bodies of requests and responses, encoded without loss.
use quotacontrol.Prelude.{ℕ, ◌≡◌, refl, Bool}
use quotacontrol.Prelude.Int.{ℤ}
use quotacontrol.Prelude.Text.{Text, text_eq}
use quotacontrol.Prelude.Assoc.{Assoc}
use quotacontrol.Time.{Time}
use quotacontrol.Exec.{Attempt, got, failed}
use quotacontrol.Proto.Errors.{plain}
use quotacontrol.Proto.Types.{Service, AccessQuota}
use quotacontrol.Rpc.{Json, JsonLaws, Codecs}
use quotacontrol.Rpc.Wire.{WireError}

-- The bodies of three methods, and of errors.
pub data Body : Type 0 where
  key_asked : Text × Time → Body
  quota_replied : AccessQuota → Body
  keys_reported : Service × Time × Assoc Text ℤ → Body
  keys_replied : Assoc Text Bool → Body
  projects_reported : Service × Time × Assoc ℕ ℤ → Body
  projects_replied : Assoc ℕ Bool → Body
  refused : WireError → Body

abbrev unreadable {ℓ} : {A : Type ℓ} → Attempt A
unreadable = failed (plain "unreadable")

unfoldable pub get_asked : Body → Attempt (Text × Time)
get_asked (key_asked a) = got a
get_asked _ = unreadable

unfoldable pub get_replied : Body → Attempt AccessQuota
get_replied (quota_replied q) = got q
get_replied _ = unreadable

unfoldable pub get_keys : Body → Attempt (Service × Time × Assoc Text ℤ)
get_keys (keys_reported a) = got a
get_keys _ = unreadable

unfoldable pub get_keys_reply : Body → Attempt (Assoc Text Bool)
get_keys_reply (keys_replied r) = got r
get_keys_reply _ = unreadable

unfoldable pub get_projects : Body → Attempt (Service × Time × Assoc ℕ ℤ)
get_projects (projects_reported a) = got a
get_projects _ = unreadable

unfoldable pub get_projects_reply : Body → Attempt (Assoc ℕ Bool)
get_projects_reply (projects_replied r) = got r
get_projects_reply _ = unreadable

unfoldable pub get_refused : Body → Attempt WireError
get_refused (refused e) = got e
get_refused _ = unreadable

abbrev no_json : {A R : Type 0} → Json Body A R
no_json = record {
  put_args = λ a. unreadable;
  get_args = λ b. unreadable;
  put_reply = λ r. unreadable;
  get_reply = λ b. unreadable;
}

abbrev quota_json : Json Body (Text × Time) AccessQuota
quota_json = record {
  put_args = λ a. got (key_asked a);
  get_args = get_asked;
  put_reply = λ q. got (quota_replied q);
  get_reply = get_replied;
}

abbrev keys_json : Json Body (Service × Time × Assoc Text ℤ) (Assoc Text Bool)
keys_json = record {
  put_args = λ a. got (keys_reported a);
  get_args = get_keys;
  put_reply = λ r. got (keys_replied r);
  get_reply = get_keys_reply;
}

abbrev projects_json : Json Body (Service × Time × Assoc ℕ ℤ) (Assoc ℕ Bool)
projects_json = record {
  put_args = λ a. got (projects_reported a);
  get_args = get_projects;
  put_reply = λ r. got (projects_replied r);
  get_reply = get_projects_reply;
}

abbrev pub codecs : Codecs Body
codecs = record {
  ping = no_json;
  get_project_status = no_json;
  get_access_key = no_json;
  create_access_key = no_json;
  update_access_key = no_json;
  list_access_keys = no_json;
  rotate_access_key = no_json;
  disable_access_key = no_json;
  get_default_access_key = no_json;
  set_default_access_key = no_json;
  get_project_quota = no_json;
  get_access_quota = quota_json;
  clear_access_quota_cache = no_json;
  get_usage = no_json;
  clear_usage = no_json;
  sync_project_usage = projects_json;
  sync_access_key_usage = keys_json;
  notify_event = no_json;
  get_user_permission = no_json;
  get_account_usage = no_json;
  get_access_key_usage = no_json;
  get_async_usage = no_json;
  update_project_usage = no_json;
  update_key_usage = no_json;
  prepare_usage = no_json;
}

pub quota_json-Laws : JsonLaws codecs.get_access_quota (λ a. Unit {0}) (λ q. Unit {0})
unfolding get_asked get_replied
quota_json-Laws = record {
  args_back = λ a fits. (key_asked a, refl, refl);
  reply_back = λ q fits. (quota_replied q, refl, refl);
}

pub keys_json-Laws : JsonLaws codecs.sync_access_key_usage (λ a. a.0 ≡ 1) (λ r. Unit {0})
unfolding get_keys get_keys_reply
keys_json-Laws = record {
  args_back = λ a fits. (keys_reported a, refl, refl);
  reply_back = λ r fits. (keys_replied r, refl, refl);
}

pub projects_json-Laws : JsonLaws codecs.sync_project_usage (λ a. a.0 ≡ 1) (λ r. Unit {0})
unfolding get_projects get_projects_reply
projects_json-Laws = record {
  args_back = λ a fits. (projects_reported a, refl, refl);
  reply_back = λ r fits. (projects_replied r, refl, refl);
}
