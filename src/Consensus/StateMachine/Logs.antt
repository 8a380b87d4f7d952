-- ===== src/Consensus/StateMachine/Logs.antt =====
-- What the log does to the versions of a replica's store, and that every replica does just that.
use basuyudb.Base.{ℕ, ◌≡◌, ◌⊎◌, List, [], ◌∷◌, ◌++◌, ◌<◌, ◌≢◌, Bytes, none, some, ok}
use basuyudb.Storage.Mvcc.History.{Version, stamp, newest}
use basuyudb.Storage.Mvcc.Reads.{UpTo}
use basuyudb.Transactions.Overlay.{Mutation}
use basuyudb.Transactions.Engine.Batch.{writes}
use basuyudb.Consensus.Codec.{unmarshal_proposal}
use basuyudb.Consensus.StateMachine.{LogEntry, result_aborted}

-- Of all versions of a key, the newest is a value that was committed after `read`.
pub record WrittenSince (h : List Version) (read : ℕ) (k : Bytes) : Type 0 where
  pub version : Version
  pub last : ℕ
  pub last_of_all : UpTo last h
  pub found : newest h last k ≡ some version
  pub is_live : version.value ≢ none
  pub is_after : read < version.ts

abbrev pub AnyWrittenSince : List Version → ℕ → List Mutation → Type 0
AnyWrittenSince h read [] = ⊥
AnyWrittenSince h read (m ∷ muts) = WrittenSince h read m.key ⊎ AnyWrittenSince h read muts

-- The log on versions alone: an entry is refused with 0 where one of its keys was written since its proposer's snapshot, and
-- otherwise puts its writes on top, at its index, which is its answer. `last` is the index of the last entry.
pub data Decides : List Version → ℕ → List LogEntry → List Version → ℕ → List ℕ → Type 0 where
  no_entry : (h : List Version) (last : ℕ) → Decides h last [] h last []
  refused :
      {h h' : List Version} {last last' read : ℕ} {muts : List Mutation} {es : List LogEntry}
      {xs : List ℕ} (e : LogEntry)
      → unmarshal_proposal e.cmd ≡ ok (read, muts)
      → AnyWrittenSince h read muts
      → Decides h e.index es h' last' xs
      → Decides h last (e ∷ es) h' last' (result_aborted ∷ xs)
  committed :
      {h h' : List Version} {last last' read : ℕ} {muts : List Mutation} {es : List LogEntry}
      {xs : List ℕ} (e : LogEntry)
      → unmarshal_proposal e.cmd ≡ ok (read, muts)
      → ¬ AnyWrittenSince h read muts
      → Decides (stamp e.index (writes muts []) ++ h) e.index es h' last' xs
      → Decides h last (e ∷ es) h' last' (e.index ∷ xs)
