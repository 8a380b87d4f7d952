-- ===== src/Storage/Memory.antt =====
-- A store in memory that behaves as `BadgerLaws` says: the parameter of the model at a concrete value,
-- at which the theorems about the store are tried.
pub mod Laws
use basuyudb.Base.{
  ℕ, ◌+◌, ◌≤◌, ◌≡◌, ◌≢◌, refl, sym, ap, ◌∙◌, inl, inr, Bool, true, false, List, [], ◌∷◌, ◌++◌,
  Bytes, Option, none, some, Error, io, Result, ok, err, Bool-cases, arith, max, All, cmp,
  cmp_trans, cmp_flip, cmp-eq, cmp_refl, cmp_total, Ordering, eqb, eqb_iff, if◌then◌else◌, subst,
  eqb_refl,
}
use basuyudb.Storage.Mvcc.{Badger, BadgerLaws}
use basuyudb.Storage.Mvcc.History.{
  Version, Write, Entry, stamp, newest, answer, live, lookup, Above, IsAscending, without_prefix,
}
use basuyudb.Storage.Mvcc.Reads.{UpTo, UpTo-mono}

-- The keys of a history in ascending order, each once.
unfoldable pub insert_key : Bytes → List Bytes → List Bytes
insert_key k [] = k ∷ []
insert_key k (j ∷ js) =
    let rest = insert_key k js in
    elim (cmp k j) [ Ordering.lt ↦ k ∷ j ∷ js | Ordering.eq ↦ j ∷ js | Ordering.gt ↦ j ∷ rest ]

unfoldable pub all_keys : List Version → List Bytes
unfolding insert_key
all_keys [] = []
all_keys (v ∷ h) = insert_key v.key (all_keys h)

unfoldable pub entry_of : Bytes → Option Bytes → List Entry → List Entry
entry_of k none rest = rest
entry_of k (some v) rest = (k, v) ∷ rest

unfoldable pub gather : List Version → ℕ → List Bytes → List Entry
unfolding entry_of
gather h ts [] = []
gather h ts (k ∷ ks) = entry_of k (live (newest h ts k)) (gather h ts ks)

unfoldable pub latest_ts : List Version → ℕ
latest_ts [] = 0
latest_ts (v ∷ h) = max v.ts (latest_ts h)

pub record MemoryBatch : Type 0 where
  pub ts : ℕ
  pub items : List Write

abbrev pub memory : Badger
memory = record {
  Db = List Version;
  Batch = MemoryBatch;
  max_version = latest_ts;
  get_at = λ h ts k. answer (newest h ts k);
  scan_at = λ h ts. gather h ts (all_keys h);
  new_batch = λ h ts. record { ts = ts; items = [] };
  batch_set = λ b k v. ok (record b { items = (k, some v) ∷ b.items });
  batch_delete = λ b k. ok (record b { items = (k, none) ∷ b.items });
  flush = λ h b. ok (stamp b.ts b.items ++ h);
  abandon = λ h b. stamp b.ts b.items ++ h;
  drop_prefix = λ h p. ok (without_prefix p h);
}
