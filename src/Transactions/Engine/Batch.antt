-- ===== src/Transactions/Engine/Batch.antt =====
-- The batch that a commit fills, and its conflict check, in terms of the store's versions.
use basuyudb.Base.{
  ℕ, ◌<◌, ◌≡◌, ◌≢◌, ◌⊎◌, refl, ap, ◌∙◌, inl, inr, true, false, List, [], ◌∷◌, Bytes, Option, none,
  some, Error, io, ok, err, Result-cases, Bool-cases, Option-cases, ltb, if◌then◌else◌, arith,
}
use basuyudb.Storage.Mvcc.{Badger, BadgerLaws, latest_version}
use basuyudb.Storage.Mvcc.History.{Version, Write, newest}
use basuyudb.Storage.Mvcc.Reads.{find_write}
use basuyudb.Transactions.Overlay.{Mutation, newest_mutation}
use basuyudb.Transactions.Engine.{is_newer, has_conflict, write_one, fill_batch}

-- What a mutation writes.
abbrev pub written : Mutation → Option Bytes
written m = if m.delete then none else some m.value

-- The writes of a batch, the latest first.
unfoldable pub writes : List Mutation → List Write → List Write
writes [] before = before
writes (m ∷ muts) before = writes muts ((m.key, written m) ∷ before)

abbrev pub write_or : Option Mutation → Option (Option Bytes) → Option (Option Bytes)
write_or none before = before
write_or (some m) before = some (written m)

pub find-writes :
    (muts : List Mutation) (before : List Write) (k : Bytes)
    → find_write (writes muts before) k ≡ write_or (newest_mutation k muts) (find_write before k)
unfolding writes newest_mutation find_write
find-writes [] before k = refl
find-writes (m ∷ muts) before k = ground (arith, find-writes muts ((m.key, written m) ∷ before) k)

module _ (B : Badger) (L : BadgerLaws B) where
  write_one_writes :
      (b c : B.Batch) (m : Mutation)
      → write_one B b m ≡ ok c
      → (L.pending c ≡ (m.key, written m) ∷ L.pending b) × (L.batch_ts c ≡ L.batch_ts b)
  write_one_writes b c m e =
      ground (arith, L.pending-batch_delete b c m.key, L.pending-batch_set b c m.key m.value)

  pub fill_batch-writes :
      (b : B.Batch) (muts : List Mutation)
      → (fill_batch B b muts).1 ≡ ok tt
      → L.pending (fill_batch B b muts).0 ≡ writes muts (L.pending b)
  unfolding fill_batch writes
  fill_batch-writes b [] e = refl
  fill_batch-writes b (m ∷ muts) e = elim (Result-cases (write_one B b m)) [
    | inl (c, f) ↦
        let (p, q) = write_one_writes b c m f in
        rw (fill_batch, f) (fill_batch-writes c muts (rw (fill_batch, f) at e) ∙ ap (writes muts) p)
    | inr (x, f) ↦ let z = rw (fill_batch, f) at e in cc
  ]

  -- The batch keeps its timestamp, whether it is filled or not.
  pub batch_ts-fill_batch :
      (b : B.Batch) (muts : List Mutation) → L.batch_ts (fill_batch B b muts).0 ≡ L.batch_ts b
  unfolding fill_batch
  batch_ts-fill_batch b [] = refl
  batch_ts-fill_batch b (m ∷ muts) = elim (Result-cases (write_one B b m)) [
    | inl (c, f) ↦ rw (fill_batch, f) (batch_ts-fill_batch c muts ∙ (write_one_writes b c m f).1)
    | inr (x, f) ↦ rw (fill_batch, f) refl
  ]

  pub fill_batch_io :
      (b : B.Batch) (muts : List Mutation) (x : Error) → (fill_batch B b muts).1 ≡ err x → x ≡ io
  unfolding fill_batch
  fill_batch_io b [] x e = cc
  fill_batch_io b (m ∷ muts) x e = elim (Result-cases (write_one B b m)) [
    | inl (c, f) ↦ fill_batch_io c muts x (rw (fill_batch, f) at e)
    | inr (y, f) ↦ ground (
      arith,
      L.batch_delete_io b m.key y,
      L.batch_set_io b m.key m.value y,
      f,
      rw (fill_batch, f) at e,
    )
  ]

  -- The key's newest version of all is a value, and it is newer than `read`.
  pub record NewerLive (db : B.Db) (read : ℕ) (k : Bytes) : Type 0 where
    pub version : Version
    pub found : newest (L.history db) (B.max_version db) k ≡ some version
    pub is_live : version.value ≢ none
    pub is_after : read < version.ts

  abbrev pub AnyNewerLive : B.Db → ℕ → List Mutation → Type 0
  AnyNewerLive db read [] = ⊥
  AnyNewerLive db read (m ∷ muts) = NewerLive db read m.key ⊎ AnyNewerLive db read muts

  -- LatestVersion answers the timestamp of the key's newest version, unless that is a delete.
  live_ts : Option Version → Option ℕ
  live_ts none = none
  live_ts (some v) = elim v.value [ none ↦ none | some x ↦ some v.ts ]

  latest_version_lem :
      (db : B.Db) (k : Bytes)
      → latest_version B db k ≡ ok (live_ts (newest (L.history db) (B.max_version db) k))
  unfolding latest_version live_ts
  latest_version_lem db k = rw (L.get_at_lem db (B.max_version db) k) (ground arith)

  newer_cases :
      (db : B.Db) (read : ℕ) (k : Bytes)
      → ((is_newer (live_ts (newest (L.history db) (B.max_version db) k)) read ≡ true)
          × NewerLive db read k)
        ⊎ ((is_newer (live_ts (newest (L.history db) (B.max_version db) k)) read ≡ false)
            × (¬ NewerLive db read k))
  unfolding is_newer live_ts
  newer_cases db read k = go (newest (L.history db) (B.max_version db) k) refl
    where
      go :
          (o : Option Version)
          → newest (L.history db) (B.max_version db) k ≡ o
          → ((is_newer (live_ts o) read ≡ true) × NewerLive db read k)
            ⊎ ((is_newer (live_ts o) read ≡ false) × (¬ NewerLive db read k))
      go none e = inr (refl, λ n. cc (n.found, e))
      go (some v) e = elim (Option-cases v.value) [
        | inl f ↦ inr (
          rw f,
          λ n.
              let same : n.version ≡ v = cc (n.found, e) in
              n.is_live (ap (λ (w : Version). w.value) same ∙ f),
        )
        | inr (x, f) ↦ elim (Bool-cases (ltb read v.ts)) [
          | inl g ↦ inl (
            rw f g,
            record { version = v; found = e; is_live = λ z. cc; is_after = ground arith },
          )
          | inr g ↦ inr (
            rw f g,
            λ n.
                let same : n.version ≡ v = cc (n.found, e) in
                let after = n.is_after in ground (arith, after, same),
          )
        ]
      ]

  -- The check answers on every store; it reports a conflict exactly if the newest version of a
  -- written key is a value and newer than the snapshot.
  pub conflict_cases :
      (db : B.Db) (read : ℕ) (muts : List Mutation)
      → ((has_conflict B db read muts ≡ ok true) × AnyNewerLive db read muts)
        ⊎ ((has_conflict B db read muts ≡ ok false) × (¬ AnyNewerLive db read muts))
  unfolding has_conflict
  conflict_cases db read [] = inr (refl, λ n. n)
  conflict_cases db read (m ∷ muts) = elim (newer_cases db read m.key) [
    | inl (p, n) ↦ inl (rw (latest_version_lem db m.key) (rw p), inl n)
    | inr (p, n) ↦ elim (conflict_cases db read muts) [
      | inl (q, k) ↦ inl (rw (latest_version_lem db m.key) (rw p q), inr k)
      | inr (q, k) ↦
          inr (rw (latest_version_lem db m.key) (rw p q), λ z. elim z [ inl a ↦ n a | inr b ↦ k b ])
    ]
  ]
