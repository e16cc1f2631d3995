-- ===== src/Tests/Stores.antt =====
-- The store in memory.
use quotacontrol.Prelude.{nat_eq, ◌≡◌, refl, true, some, [], ◌∷◌, arith, ◌==◌, if◌then◌else◌}
use quotacontrol.Prelude.Int.{pos, add64}
use quotacontrol.Prelude.Text.{codes, text_eq, text_beq}
use quotacontrol.Prelude.Assoc.{lookup}
use quotacontrol.Proto.Errors.{ok}
use quotacontrol.Proto.Types.{AccessKey, zero_key}
use quotacontrol.Usage.{Record, or_zero}
use quotacontrol.Mock.Memory.{
  MemoryStore, get_account_usage, get_access_key_usage, insert_access_usage,
}
use quotacontrol.Mock.Memory.Accounting.{
  get_access_key_usage-insert_access_usage, get_account_usage-insert_access_usage,
}

abbrev the_key : AccessKey
the_key = record zero_key { project_id = 7; access_key = codes "k"; active = true }

-- The key has used five of service 1.
abbrev used : Record
used = record { by_project_id = []; by_access_key = (codes "k", pos 5) ∷ [] }

abbrev store : MemoryStore
store = record {
  limits = [];
  infos = [];
  access_keys = (codes "k", the_key) ∷ [];
  usage = (1, used) ∷ [];
  users = [];
  projects = [];
  permissions = [];
}

used_found : lookup 1 store.usage ≡ some used
unfolding lookup
used_found = refl

key_found : lookup (codes "k") store.access_keys ≡ some the_key
unfolding lookup text_beq
key_found = refl

get_access_key_usage-insert_access_usage_example :
    let old = or_zero (lookup (codes "k") used.by_access_key) in
    (get_access_key_usage 7
      (codes "k")
      (some 1)
      (pos 0)
      (pos 9)
      (insert_access_usage 7 (codes "k") 1 (pos 3) (pos 4) store).1).0
    ≡ ok (if codes "k" == codes "k" then add64 old (pos 4) else old)
get_access_key_usage-insert_access_usage_example =
    get_access_key_usage-insert_access_usage 7 7 (codes "k") (codes "k") 1 (pos 3) (pos 0) (pos 9)
      (pos 4) store used the_key used_found (omega arith, omega arith) key_found

get_account_usage-insert_access_usage_example :
    (get_account_usage 7
      (some 1)
      (pos 0)
      (pos 9)
      (insert_access_usage 7 [] 1 (pos 3) (pos 4) store).1).0
    ≡ (get_account_usage 7 (some 1) (pos 0) (pos 9) store).0
get_account_usage-insert_access_usage_example =
    get_account_usage-insert_access_usage 7 1 (pos 3) (pos 0) (pos 9) (pos 4) store used used_found
      (omega arith, omega arith) ((λ e. ground arith), tt)
