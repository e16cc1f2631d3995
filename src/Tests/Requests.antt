-- ===== src/Tests/Requests.antt =====
-- The middlewares, and the reports of usage.
use quotacontrol.Prelude.{ℕ, ◌≡◌, ◌↔◌, refl, true, false, none, some, [], ◌∷◌, arith}
use quotacontrol.Prelude.Int.{pos, int_eq, ◌+ℤ◌, ◌≤ℤ◌, ◌<ℤ◌}
use quotacontrol.Prelude.Text.{Text, codes, text_eq}
use quotacontrol.Proto.Errors.{ok, rpc, quota_exceeded}
use quotacontrol.Proto.Access.{is_active}
use quotacontrol.Cache.RedisCache.{key_of}
use quotacontrol.Client.{Sessions}
use quotacontrol.Middleware.{Context, Client, next, refused, format_int}
use quotacontrol.Middleware.Usage.{ensure_usage}
use quotacontrol.Middleware.Usage.Bound.{outcome, ensure_usage_bound}
use quotacontrol.Middleware.Verify.{
  verify_quota, decide, project_part, key_part, key_fetched, finish, admit, admit_fetched,
  header_limit,
}
use quotacontrol.Middleware.Verify.Admission.{Admitted, verify_quota-Admitted}
use quotacontrol.Tests.Proto.{ten_to_twenty}
use quotacontrol.Tests.Clients.{the_quota, the_limit, settings_found}

-- A client without state that has used 15 of its 20.
abbrev client : Client (Unit {0})
client = record {
  is_enabled = true;
  default_usage = pos 1;
  service = 1;
  fetch_project_quota = λ project chains now w. (ok (some the_quota, none), w);
  fetch_key_quota = λ key origin chains now w. (ok (some the_quota, none), w);
  fetch_usage = λ q now w. (ok (pos 15), w);
  check_permission = λ ctx project permission w. (ok true, w);
  spend_quota = λ q cost now w. (ok (true, pos 16, none), w);
}

abbrev pub sessions : Sessions
sessions = record { admin = 5; project = 3; access_key = 1 }

abbrev pub by_key : Context
by_key = record {
  auth = record {
    session = 1;
    account = none;
    access_key = some (codes "k");
    project_id = none;
    service = none;
  };
  quota = none;
  cost = none;
  time = none;
  spending = false;
  increment = none;
  request_limit = none;
}

abbrev with_quota : Context
with_quota = record by_key { quota = some the_quota; cost = some (pos 6) }

ensure_usage_bound_example :
    ((outcome (ensure_usage client (pos 0) with_quota tt) ≡ some (next with_quota))
      ↔ (pos 15 +ℤ pos 6 ≤ℤ pos 20))
    × ((outcome (ensure_usage client (pos 0) with_quota tt) ≡ some (refused (rpc quota_exceeded)))
        ↔ (pos 20 <ℤ pos 15 +ℤ pos 6))
unfolding ◌+ℤ◌
ensure_usage_bound_example =
    ensure_usage_bound client (pos 0) with_quota the_quota the_limit ten_to_twenty (pos 15) tt tt
      refl refl refl settings_found (λ e. ground arith) refl (omega arith, omega arith)

abbrev pub projects : Text → ℕ
projects key = 7

abbrev pub admitted : Context
admitted = record by_key { quota = some the_quota }

-- A session of project 7, with a key of it.
abbrev by_project : Context
by_project = record by_key { auth = record by_key.auth { session = 3; project_id = some 7 } }

abbrev allowed : Context
allowed = record by_project { quota = some the_quota }

verified :
    verify_quota client sessions projects (pos 0) [] [] by_project tt
    ≡ (ok ((header_limit, format_int (pos 10)) ∷ [], next allowed), tt)
unfolding verify_quota decide project_part key_part key_fetched finish is_active admit admit_fetched
    key_of
verified = ground (arith, settings_found)

verify_quota-Admitted_example : Admitted sessions projects by_project allowed
verify_quota-Admitted_example =
    verify_quota-Admitted client sessions projects (pos 0) [] [] by_project allowed
      ((header_limit, format_int (pos 10)) ∷ []) tt tt verified
