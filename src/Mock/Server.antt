-- ===== src/Mock/Server.antt =====
-- mock/server.go: the server of the tests, which keeps the events that it is notified of and can be
-- told to fail. `W` is the world of the server inside.
pub mod Events
use quotacontrol.Prelude.{ℕ, nat_eq, Bool, Option, none, some, List, [], ◌∷◌, ◌++◌}
use quotacontrol.Prelude.Assoc.{Assoc, lookup, insert}
use quotacontrol.Prelude.Text.{Text}
use quotacontrol.Time.{Time}
use quotacontrol.Exec.{Exec, pure, raise, on_second}
use quotacontrol.Proto.Errors.{Error}
use quotacontrol.Proto.Types.{Service, EventType, AccessQuota}
use quotacontrol.Rpc.{QuotaControl}

pub record Event : Type 0 where
  pub service : Service
  pub event_type : EventType

pub record Server : Type 0 where
  pub notifications : Assoc ℕ (List Event)
  pub err_get_project_quota : Option Error
  pub err_get_access_quota : Option Error

abbrev pub events_of : Option (List Event) → List Event
events_of none = []
events_of (some events) = events

unfoldable pub get_events : ℕ → Server → List Event
get_events project_id s = events_of (lookup project_id s.notifications)

unfoldable pub flush_notifications : Server → Server
flush_notifications s = record s { notifications = [] }

unfoldable pub noted : ℕ → Event → Server → Server
noted project_id event s = record s {
  notifications =
      insert project_id (events_of (lookup project_id s.notifications) ++ event ∷ [])
        s.notifications;
}

module _ {W : Type 0} (server : QuotaControl W) where
  unfoldable pub get_project_quota : ℕ → Time → Exec (Server × W) AccessQuota
  get_project_quota project_id now (s, w) = elim s.err_get_project_quota [
    | some e ↦ raise e (s, w)
    | none ↦ on_second (server.get_project_quota (project_id, now)) (s, w)
  ]

  unfoldable pub get_access_quota : Text → Time → Exec (Server × W) AccessQuota
  get_access_quota access_key now (s, w) = elim s.err_get_access_quota [
    | some e ↦ raise e (s, w)
    | none ↦ on_second (server.get_access_quota (access_key, now)) (s, w)
  ]

  unfoldable pub notify_event : ℕ → Service → EventType → Exec (Server × W) Bool
  unfolding noted
  notify_event project_id service event_type (s, w) =
      on_second (server.notify_event (project_id, service, event_type))
        (noted project_id (record { service = service; event_type = event_type }) s, w)

  -- The methods of the server inside, but for those three.
  unfoldable pub mock_methods : QuotaControl (Server × W)
  unfolding get_project_quota get_access_quota notify_event
  mock_methods = record {
    ping = λ a. on_second (server.ping a);
    get_project_status = λ a. on_second (server.get_project_status a);
    get_access_key = λ a. on_second (server.get_access_key a);
    create_access_key = λ a. on_second (server.create_access_key a);
    update_access_key = λ a. on_second (server.update_access_key a);
    list_access_keys = λ a. on_second (server.list_access_keys a);
    rotate_access_key = λ a. on_second (server.rotate_access_key a);
    disable_access_key = λ a. on_second (server.disable_access_key a);
    get_default_access_key = λ a. on_second (server.get_default_access_key a);
    set_default_access_key = λ a. on_second (server.set_default_access_key a);
    clear_access_quota_cache = λ a. on_second (server.clear_access_quota_cache a);
    get_usage = λ a. on_second (server.get_usage a);
    clear_usage = λ a. on_second (server.clear_usage a);
    sync_project_usage = λ a. on_second (server.sync_project_usage a);
    sync_access_key_usage = λ a. on_second (server.sync_access_key_usage a);
    get_user_permission = λ a. on_second (server.get_user_permission a);
    get_account_usage = λ a. on_second (server.get_account_usage a);
    get_access_key_usage = λ a. on_second (server.get_access_key_usage a);
    get_async_usage = λ a. on_second (server.get_async_usage a);
    update_project_usage = λ a. on_second (server.update_project_usage a);
    update_key_usage = λ a. on_second (server.update_key_usage a);
    prepare_usage = λ a. on_second (server.prepare_usage a);
    get_project_quota = λ a. get_project_quota a.0 a.1;
    get_access_quota = λ a. get_access_quota a.0 a.1;
    notify_event = λ a. notify_event a.0 a.1 a.2;
  }
