-- ===== src/Mock/Memory/Accounting.antt =====
-- The usage that `MemoryStore` accounts for.
use quotacontrol.Prelude.{ℕ, ◌≡◌, ◌≢◌, refl, some, [], ◌∷◌, ◌==◌, nat_eq, arith, if◌then◌else◌}
use quotacontrol.Prelude.Int.{ℤ, pos, add64, add64_exact, ◌+ℤ◌, IsInt64, int_laws}
use quotacontrol.Prelude.Text.{Text, text_eq, text_beq_iff}
use quotacontrol.Prelude.Assoc.{Assoc, lookup, insert, lookup-insert, beq_self}
use quotacontrol.Time.{Time}
use quotacontrol.Proto.Errors.{ok}
use quotacontrol.Proto.Types.{Service, AccessKey}
use quotacontrol.Usage.{Record, or_zero, add_to}
use quotacontrol.Mock.Memory.{
  MemoryStore, sum_project_keys, get_account_usage, get_access_key_usage, insert_access_usage,
}

zero_add : (n : ℤ) → pos 0 +ℤ n ≡ n
zero_add n = omega int_laws

zero_add64 : (n : ℤ) → IsInt64 n → add64 (pos 0) n ≡ n
zero_add64 n h = ground (arith, zero_add n, add64_exact (pos 0) n)

-- The record of a service after usage was inserted.
inserted :
    (p : ℕ) (key : Text) (s : Service) (t : Time) (n : ℤ) (m : MemoryStore) (r : Record)
    → lookup s m.usage ≡ some r
    → IsInt64 n
    → insert_access_usage p key s t n m ≡ (
      ok tt,
      record m {
        usage = insert s (record r { by_access_key = add_to key n r.by_access_key }) m.usage;
      },
    )
unfolding insert_access_usage add_to
inserted p key s t n m r h fits = ground (arith, zero_add64 n fits)

-- In the store in memory, for a service that it has and an int64 usage: after the usage is inserted
-- for an access key, the usage of that key and service has grown by it, modulo 2^64 as int64 sums
-- do, and that of another key that is there is as before.
pub get_access_key_usage-insert_access_usage :
    (p q : ℕ) (key other : Text) (s : Service) (t from to : Time) (n : ℤ) (m : MemoryStore)
    (r : Record) (k : AccessKey)
    → lookup s m.usage ≡ some r
    → IsInt64 n
    → lookup other m.access_keys ≡ some k
    → let old = or_zero (lookup other r.by_access_key) in
      (get_access_key_usage q other (some s) from to (insert_access_usage p key s t n m).1).0
      ≡ ok (if key == other then add64 old n else old)
unfolding get_access_key_usage add_to
get_access_key_usage-insert_access_usage p q key other s t from to n m r k h fits found =
    let u = add64 (or_zero (lookup key r.by_access_key)) n in
    let r' : Record = record r { by_access_key = insert key u r.by_access_key } in
    ground (
      arith,
      inserted p key s t n m r h fits,
      lookup-insert s s r' m.usage,
      beq_self s,
      lookup-insert key other u r.by_access_key,
      text_beq_iff key other,
    )

-- No access key of the store is empty.
abbrev pub Named : Assoc Text AccessKey → Type 0
Named [] = Unit {0}
Named ((a, k) ∷ rest) = (k.access_key ≢ []) × Named rest

sum_same :
    (p : ℕ) (u : ℤ) (usage : Assoc Text ℤ) (keys : Assoc Text AccessKey) (acc : ℤ)
    → Named keys
    → sum_project_keys p (insert [] u usage) keys acc ≡ sum_project_keys p usage keys acc
unfolding sum_project_keys
sum_same p u usage [] acc h = refl
sum_same p u usage ((a, k) ∷ rest) acc h =
    let next = if k.project_id == p then add64 acc (or_zero (lookup k.access_key usage)) else acc in
    ground (
      arith,
      sum_same p u usage rest next h.1,
      lookup-insert [] k.access_key u usage,
      text_beq_iff [] k.access_key,
      h.0,
    )

-- In the store in memory, for a service that it has, an int64 usage and no empty access key: usage
-- that is inserted for a project alone, with the empty access key, does not change the usage of the
-- project and service.
pub get_account_usage-insert_access_usage :
    (p : ℕ) (s : Service) (t from to : Time) (n : ℤ) (m : MemoryStore) (r : Record)
    → lookup s m.usage ≡ some r
    → IsInt64 n
    → Named m.access_keys
    → (get_account_usage p (some s) from to (insert_access_usage p [] s t n m).1).0
      ≡ (get_account_usage p (some s) from to m).0
unfolding get_account_usage add_to
get_account_usage-insert_access_usage p s t from to n m r h fits named =
    let u = add64 (or_zero (lookup [] r.by_access_key)) n in
    let r' : Record = record r { by_access_key = insert [] u r.by_access_key } in
    let start = add64 (pos 0) (or_zero (lookup p r.by_project_id)) in
    ground (
      arith,
      inserted p [] s t n m r h fits,
      lookup-insert s s r' m.usage,
      beq_self s,
      sum_same p u r.by_access_key m.access_keys start named,
    )
