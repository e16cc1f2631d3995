-- ===== src/Cache/Redis.antt =====
-- The Redis client, which is not part of the program: its commands, the encodings of what is stored,
-- and what their documentation says of a server that answers. Time to live is in nanoseconds; that
-- a key expires between two commands is a step of the environment.
pub mod InMemory
use quotacontrol.Prelude.{ℕ, Bool, true, false, Option, none, some, ◌≡◌, ◌==◌, if◌then◌else◌}
use quotacontrol.Prelude.Int.{ℤ, ◌+ℤ◌, IsInt64}
use quotacontrol.Prelude.Text.{Text, text_eq}
use quotacontrol.Exec.{Exec}
use quotacontrol.Proto.Errors.{sentinel, redis_nil, Result, ok, err}
use quotacontrol.Proto.Types.{AccessQuota, UserPermission, ResourceAccess}

-- `B` are the byte strings that Redis stores.
pub record Redis (W B : Type 0) : Type 0 where
  pub get : Text → Exec W B
  pub set : Text → B → ℤ → Exec W (Unit {0})
  pub set_nx : Text → B → ℤ → Exec W Bool
  pub del : Text → Exec W ℕ
  pub incr_by : Text → ℤ → Exec W ℤ

-- `json.Marshal` and `json.Unmarshal` of the two structs, and the decimal text of an `int64`.
pub record Codec (B : Type 0) : Type 0 where
  pub marshal_quota : AccessQuota → Result B
  pub unmarshal_quota : B → Result AccessQuota
  pub marshal_permission : UserPermission × Option ResourceAccess → Result B
  pub unmarshal_permission : B → Result (UserPermission × Option ResourceAccess)
  pub int_bytes : ℤ → B
  pub int_of : B → Result ℤ

-- What was encoded is read back. Of a quota this is not so: it may list services without a name.
pub record CodecLaws {B : Type 0} (c : Codec B) : Type 0 where
  pub permission_back :
      (p : UserPermission × Option ResourceAccess) (b : B)
      → c.marshal_permission p ≡ ok b
      → c.unmarshal_permission b ≡ ok p
  pub int_back : (n : ℤ) → c.int_of (c.int_bytes n) ≡ ok n

abbrev pub found : {B : Type 0} → Option B → Result B
found none = err (sentinel redis_nil)
found (some b) = ok b

abbrev pub is_none : {B : Type 0} → Option B → Bool
is_none none = true
is_none (some b) = false

abbrev pub deleted : {B : Type 0} → Option B → ℕ
deleted none = 0
deleted (some b) = 1

-- A server that answers every command. `content` is the value under a key.
pub record RedisLaws {W B : Type 0} (r : Redis W B) (c : Codec B) (content : W → Text → Option B)
    : Type 0 where
  pub get_reply : (k : Text) (w : W) → (r.get k w).0 ≡ found (content w k)
  pub get_keeps : (k : Text) (w : W) (j : Text) → content (r.get k w).1 j ≡ content w j
  pub set_reply : (k : Text) (b : B) (ttl : ℤ) (w : W) → (r.set k b ttl w).0 ≡ ok tt
  pub set_content :
      (k : Text) (b : B) (ttl : ℤ) (w : W) (j : Text)
      → content (r.set k b ttl w).1 j ≡ (if k == j then some b else content w j)
  pub set_nx_reply :
      (k : Text) (b : B) (ttl : ℤ) (w : W) → (r.set_nx k b ttl w).0 ≡ ok (is_none (content w k))
  pub set_nx_content :
      (k : Text) (b : B) (ttl : ℤ) (w : W) (j : Text)
      → content (r.set_nx k b ttl w).1 j ≡ (
          if k == j
          then (elim (content w k) [ none ↦ some b | some old ↦ some old ])
          else content w j)
  pub del_reply : (k : Text) (w : W) → (r.del k w).0 ≡ ok (deleted (content w k))
  pub del_content :
      (k : Text) (w : W) (j : Text)
      → content (r.del k w).1 j ≡ (if k == j then none else content w j)
  pub incr_reply :
      (k : Text) (n m : ℤ) (w : W)
      → content w k ≡ some (c.int_bytes n)
      → IsInt64 (n +ℤ m)
      → (r.incr_by k m w).0 ≡ ok (n +ℤ m)
  pub incr_content :
      (k : Text) (n m : ℤ) (w : W) (j : Text)
      → content w k ≡ some (c.int_bytes n)
      → IsInt64 (n +ℤ m)
      → content (r.incr_by k m w).1 j
        ≡ (if k == j then some (c.int_bytes (n +ℤ m)) else content w j)
