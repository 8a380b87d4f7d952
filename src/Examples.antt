-- ===== src/Examples.antt =====
-- Concrete inputs: a store in memory, an engine over it, sessions and transactions. The children run the
-- code on them.
mod Commits
mod Replication
mod Storing
mod Encoding
mod Sessions
mod Statements
mod Policies
mod Branching
use basuyudb.Base.{
  ℕ, Bool, true, false, List, [], ◌∷◌, Bytes, codes, Option, none, some, Result, ok, arith,
}
use basuyudb.Auth.Identity.{NamespaceId, AuthSession, IsValid}
use basuyudb.Storage.Keys.Isolation.{AreNames}
use basuyudb.Storage.Mvcc.History.{Version}
use basuyudb.Storage.Memory.{memory, latest_ts}
use basuyudb.Storage.Memory.Laws.{memory_laws}
use basuyudb.Transactions.Overlay.{Mutation}
use basuyudb.Transactions.Engine.{Replicated, Engine, Txn, new_engine, begin}
use basuyudb.Transactions.Engine.Commit.{IsWellFormed}
use basuyudb.Transactions.Engine.Isolation.{new_engine-IsWellFormed}

-- A node that has applied up to an index and accepts every proposal.
abbrev pub solo : Replicated (List Version)
solo = record {
  Node = ℕ;
  read_timestamp = λ node shard. node;
  propose_txn = λ node db shard read muts. (ok (true, node), node, db);
}

abbrev pub acme : NamespaceId
acme = record { raw = codes "acme" }

abbrev pub globex : NamespaceId
globex = record { raw = codes "globex" }

abbrev pub session : AuthSession
session = record {
  namespace = acme;
  branch = [];
  sub = codes "u1";
  jti = codes "j";
  azp = codes "p";
  role = codes "user";
}

abbrev pub one_version : List Version
one_version = record { key = codes "a"; ts = 3; value = some (codes "old") } ∷ []

abbrev pub engine : Engine memory solo
engine = new_engine memory solo one_version 1 none

pub engine-IsWellFormed : IsWellFormed memory memory_laws solo engine
unfolding latest_ts
engine-IsWellFormed = new_engine-IsWellFormed memory memory_laws solo one_version 1 (omega arith)

abbrev pub put_a : Mutation
put_a = record { key = codes "a"; value = codes "new"; delete = false }

abbrev pub delete_a : Mutation
delete_a = record { key = codes "a"; value = []; delete = true }

abbrev pub put_b : Mutation
put_b = record { key = codes "b"; value = codes "two"; delete = false }

-- A transaction that has begun on the engine and buffered these mutations.
abbrev pub txn_of : List Mutation → Txn
txn_of muts = record (begin memory solo engine session 100).1 { mutations = muts }
