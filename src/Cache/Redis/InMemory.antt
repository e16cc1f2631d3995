-- ===== src/Cache/Redis/InMemory.antt =====
-- A Redis server in memory.
use quotacontrol.Prelude.{Option, none, some, refl, arith, if◌then◌else◌}
use quotacontrol.Prelude.Int.{ℤ, pos, ◌+ℤ◌, add64, add64_exact}
use quotacontrol.Prelude.Text.{Text, text_eq, text_beq_iff}
use quotacontrol.Prelude.Assoc.{Assoc, lookup, insert, remove, lookup-insert, lookup-remove}
use quotacontrol.Proto.Errors.{Result, ok, err, plain}
use quotacontrol.Proto.Types.{AccessQuota, UserPermission, ResourceAccess}
use quotacontrol.Cache.Redis.{Redis, Codec, CodecLaws, RedisLaws, found, is_none, deleted}

pub data Value : Type 0 where
  quota : AccessQuota → Value
  permission : UserPermission × Option ResourceAccess → Value
  number : ℤ → Value

abbrev unquota : Value → Result AccessQuota
unquota (quota q) = ok q
unquota _ = err (plain "json")

abbrev unpermission : Value → Result (UserPermission × Option ResourceAccess)
unpermission (permission p) = ok p
unpermission _ = err (plain "json")

abbrev unnumber : Value → Result ℤ
unnumber (number n) = ok n
unnumber _ = err (plain "strconv")

abbrev pub codec : Codec Value
codec = record {
  marshal_quota = λ q. ok (quota q);
  unmarshal_quota = unquota;
  marshal_permission = λ p. ok (permission p);
  unmarshal_permission = unpermission;
  int_bytes = number;
  int_of = unnumber;
}

pub codec-CodecLaws : CodecLaws codec
codec-CodecLaws = record { permission_back = λ q b h. ground arith; int_back = λ n. refl }

abbrev pub Server : Type 0
Server = Assoc Text Value

abbrev count_of : Option Value → ℤ
count_of none = pos 0
count_of (some (number n)) = n
count_of (some _) = pos 0

abbrev pub redis : Redis Server Value
redis = record {
  get = λ k w. (found (lookup k w), w);
  set = λ k b ttl w. (ok tt, insert k b w);
  set_nx =
      λ k b ttl w. (ok (is_none (lookup k w)), if is_none (lookup k w) then insert k b w else w);
  del = λ k w. (ok (deleted (lookup k w)), remove k w);
  incr_by = λ k m w.
      (ok (add64 (count_of (lookup k w)) m), insert k (number (add64 (count_of (lookup k w)) m)) w);
}

abbrev pub content : Server → Text → Option Value
content w k = lookup k w

pub redis-RedisLaws : RedisLaws redis codec content
redis-RedisLaws = record {
  get_reply = λ k w. refl;
  get_keeps = λ k w j. refl;
  set_reply = λ k b ttl w. refl;
  set_content = λ k b ttl w j. lookup-insert k j b w;
  set_nx_reply = λ k b ttl w. refl;
  set_nx_content = λ k b ttl w j. ground (arith, lookup-insert k j b w, text_beq_iff k j);
  del_reply = λ k w. refl;
  del_content = λ k w j. lookup-remove k j w;
  incr_reply = λ k n m w h i. ground (arith, add64_exact n m);
  incr_content =
      λ k n m w j h i. ground (arith, add64_exact n m, lookup-insert k j (number (n +ℤ m)) w);
}
