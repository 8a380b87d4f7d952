-- ===== src/Lib.antt =====
-- A verification library for BasuyuDB, a branching SQL database in Go over BadgerDB.
--
-- The program. A session token (engine/internal/auth) fixes a namespace. Every key of the store is built
-- from a namespace, a branch and a table (engine/internal/storage/keys.go). The managed store
-- (engine/internal/storage/store.go) wraps BadgerDB, which keeps versions of each key. The transaction
-- engine (engine/internal/transactions) buffers the writes of a transaction, overlays them on a snapshot
-- and commits them at a timestamp behind a conflict check; in a cluster the check and the writes happen
-- in a Raft state machine (engine/internal/consensus). Branches (engine/internal/branch) are key prefixes
-- that are merged by rewriting keys. The executor (engine/internal/executor) keeps rows and table
-- definitions under those keys, scans a table through its branch to the parent, filters rows by row-level
-- security, stores column values in indexes by an order-preserving encoding, scans ranges of an index, and
-- combines result rows; the parser's scanner (engine/internal/parser/lexer.go) cuts a statement into tokens;
-- clients speak the wire protocol (engine/internal/wire).
--
-- The files. A file is named for the package or the source file that it models; its functions have the
-- source's names in snake_case, and a source function that is cut in pieces has helpers that are named for
-- what they do.
--   Base: bytes, numbers, results and the lemmas that the components share.
--   Auth/Identity: auth/identity.go.                Session: session/session.go.
--   Storage/Keys: storage/keys.go.                  Storage/Successor, Mvcc, Iterator, Backup: storage/store.go.
--   Transactions/Hlc: transactions/hlc.go.          Transactions/Overlay: transactions/merge_iter.go.
--   Transactions/Engine: transactions/engine.go.    Consensus/Codec: consensus/codec.go.
--   Consensus/StateMachine: consensus/statemachine.go.  Consensus/Node: consensus/node.go.
--   Branch/Prefix, Branch/Manager: branch/branch.go, branch/merge.go and storage/valuetag.go.
--   Executor/OrderEnc: executor/orderenc.go.        Executor/SetOps: executor/setop.go and join.go.
--   Executor/RowCodec: executor/encode.go.          Executor/Catalog: executor/catalog.go and txnctx.go.
--   Executor/Scan: executor/scan.go.                Executor/Policies, PolicyStatements: executor/rls.go.
--   Executor/IndexScan: executor/index_scan.go.     Executor/CopyText: executor/copy.go.
--   Executor/IntArith: executor/eval.go.            Executor/Sequences: executor/sequences.go.
--   Parser/Keywords, Scanner, Lexer: parser/lexer.go.Wire/Protocol: wire/protocol.go.
--   Storage/Memory: a store in memory that satisfies the laws; Examples: runs on concrete inputs.
--
-- How code is modelled. A method takes the state and returns the state after it with the answer; an error is
-- a value of Result. Bytes are lists of numbers. Fixed-width integers are natural numbers whose wrap is
-- written out. A Go map is a function or a sorted list. The wall clock is an argument of each call that
-- reads it. Commits are serialised by a mutex in the source, so an interleaving is a sequence of calls.
--
-- Parameters. BadgerDB is the record Badger with the laws BadgerLaws: what a read at a timestamp finds, what
-- a flushed batch adds to the versions, what a failed one may leave, that scans are ascending; Storage/Memory shows that they can hold.
-- The replicated committer is the record Replicated, which Consensus/Node fills over Raft's SyncPropose.
-- strconv's parsers and printers, strings.ToUpper and EqualFold, the JSON codec of a table's definition,
-- deparseExpr and, in sessions, the normalisation of names are functions that are given to the definitions.
-- The evaluation of a policy's predicate on a row is a function from the predicate's text to true, false,
-- NULL or an error.
--
-- Fuel. `drain` runs a merged iterator with as much fuel as there are entries and mutations, and Restore with
-- one turn more than the stream has bytes; the theorems about them hold for that fuel with no further
-- hypothesis on it. `lex_all` calls Lex until it returns no token; one more than the number of characters
-- that are left is proved to be enough.
--
-- Not modelled: the grammar (generated), the connections of the server, token verification and SCRAM, the
-- evaluation of expressions but for integer arithmetic, and the statements that rest on it, constraints,
-- reverse and limited index scans, the choice of an index, COPY's CSV and binary formats, search and vector
-- indexes, the Raft library, metrics and management.
pub mod Base
pub mod Auth
pub mod Session
pub mod Storage
pub mod Transactions
pub mod Wire
pub mod Consensus
pub mod Branch
pub mod Executor
pub mod Parser
pub mod Examples
