-- ===== src/Examples/Storing.antt =====
-- Keys, prefixes, scans and a backup.
use basuyudb.Base.{
  ◌≡◌, ◌↔◌, refl, true, List, [], ◌∷◌, codes, some, arith, has_prefix, eqb, put_uint32, get_uint32,
}
use basuyudb.Auth.Identity.{IsValid}
use basuyudb.Storage.Keys.{branch_segment, row_prefix, row_key}
use basuyudb.Storage.Keys.Isolation.{AreNames, row_scan_exact}
use basuyudb.Storage.Mvcc.History.{Entry, lookup, newest}
use basuyudb.Storage.Memory.{memory, latest_ts, gather, all_keys}
use basuyudb.Storage.Memory.Laws.{memory_laws, memory_history}
use basuyudb.Storage.Backup.{backup, restore, read_chunk, write_chunk}
use basuyudb.Storage.Backup.RoundTrip.{restore-backup}
use basuyudb.Branch.Prefix.{branch_subtree_prefix}
use basuyudb.Branch.Prefix.Scope.{drop_exact}
use basuyudb.Examples.{acme, globex, one_version}

acme-IsValid : IsValid acme
acme-IsValid = record { nonempty = omega arith; short = omega arith; no_slash = omega arith }

globex-IsValid : IsValid globex
globex-IsValid = record { nonempty = omega arith; short = omega arith; no_slash = omega arith }

pub dev_users-AreNames : AreNames acme (codes "dev") (codes "users")
dev_users-AreNames = record {
  valid = acme-IsValid;
  branch_ok = omega arith;
  table_ok = omega arith;
}

main_users-AreNames : AreNames globex (codes "main") (codes "users")
main_users-AreNames = record {
  valid = globex-IsValid;
  branch_ok = omega arith;
  table_ok = omega arith;
}

row_scan_exact_example :
    (has_prefix
        (row_key acme (codes "dev") (codes "users") (codes "7"))
        (row_prefix globex (codes "main") (codes "users"))
      ≡ true)
    ↔ ((codes "acme" ≡ codes "globex")
        × (branch_segment (codes "dev") ≡ branch_segment (codes "main"))
        × (codes "users" ≡ codes "users"))
row_scan_exact_example =
    row_scan_exact acme globex (codes "dev") (codes "main") (codes "users") (codes "users")
      (codes "7") dev_users-AreNames main_users-AreNames

drop_exact_example :
    (has_prefix
        (row_key acme (codes "dev") (codes "users") (codes "7"))
        (branch_subtree_prefix acme (codes "dev"))
      ≡ true)
    ↔ ((codes "acme" ≡ codes "acme")
        × (branch_segment (codes "dev") ≡ branch_segment (codes "dev")))
drop_exact_example =
    drop_exact acme acme (codes "dev") (codes "dev") (codes "users") (codes "7") dev_users-AreNames
      dev_users-AreNames

abbrev three : List Entry
three = (codes "a", codes "1") ∷ (codes "b1", codes "2") ∷ (codes "c", codes "3") ∷ []

restore-backup_example :
    lookup
      (codes "a")
      (memory.scan_at (record { key = codes "a"; ts = 1; value = some (codes "old") } ∷ []) 9)
    ≡ lookup (codes "a") (memory.scan_at one_version 3)
unfolding latest_ts backup restore gather all_keys newest eqb read_chunk write_chunk put_uint32
    get_uint32
restore-backup_example =
    restore-backup memory memory_laws one_version []
      (record { key = codes "a"; ts = 1; value = some (codes "old") } ∷ []) 9 (codes "a")
      (record { key_fits = omega arith; value_fits = omega arith }, tt) (memory_history [])
      (omega arith) refl
