-- ===== src/Lib.antt =====
-- The scoped transactional ledger of PhiGraph.
--
-- PhiGraph keeps decisions, authorities, execution plans, shadow receipts and outcomes as records
-- in a ledger, each record in the scope of a tenant and a project. Records of the chain-linked
-- collections form one hash chain per scope and collection, with a head that says where the chain
-- ends; records of the other collections are replaced by compare-and-set on a version. A
-- transaction declares references to the locks that its writes need, works on a copy of the store,
-- and writes the copy back when its function returns.
--
-- Files and code:
--   Prelude       names of the libraries passed on; Boolean tests, lists, texts with NUL
--                 separators, orders, sorting.
--   Python        JSON values, dicts, exceptions; the functions of Python's library that the code
--                 calls (sha256, json.dumps, str) as the record Runtime.
--   Transactions  src/phigraph/core_v3/transactions.py: collections and record ids, payload and
--                 chain hashes, lock references, the lock context.
--   ScopedLedger  src/phigraph/core_v3/scoped_ledger.py over the JSON backend: Rows (_build_row,
--                 keys), Store (_read_json_state, _write_json_state), Append (_json_append), Cas
--                 (_json_cas), Query (_get_scoped, _list_scoped, admin_list_scoped), Engine (the
--                 guards, the state that is worked on), Session (ScopedTransactionSession,
--                 run_scoped_transaction), Validate and Verify (verify_scoped_chain), Invariant
--                 (what every operation keeps), Abstract (a map from keys to records, which the
--                 store implements), Changes and History (one write, and writes in sequence), Tests.
--   Grdi          src/phigraph/grdi: LedgerOps (ledger_ops.py: the locks of each transaction), Models
--                 (models.py), Authority (authority.py), ExecutionGateway (execution_gateway.py),
--                 OutcomeLedger (outcome_ledger.py), Dicts (the rows of models.py), Events
--                 (events.py), Projection (projection.py), Arguments and Rows (what service.py
--                 reads back from rows), Receipts (ReceiptSigner of
--                 src/phigraph/core_v3/receipts.py), Tests.
--   EvidenceLedger  src/phigraph/core_v3/ledger.py (EvidenceLedger), models.py and backends.py: Models
--                 (the records and their to_dict), Chain (_append, _rechain_payload, verify_chain,
--                 repair_chain), Registers (register_* and record_* by append), Verifications
--                 (record_verification), Extensions (register_scoped_record, its _once form,
--                 update_scoped_record), Queries (query, snapshot), Sqlite (SQLiteLedgerBackend);
--                 Walks, Validity, Kept, Writes, Updates and Runs (the chains stay valid), Tamper,
--                 Once.
--   RateLimiter   src/phigraph/core_v3/rate_limit.py (SlidingWindowRateLimiter).
--   Idempotency   src/phigraph/core_v3/idempotency.py (IdempotencyStore).
--   Policy        src/phigraph/core_v3/policy.py (PolicyEngine).
--   Security      src/phigraph/core_v3/security.py, and principal_from_claims of auth.py.
--
-- The evidence ledger keeps whole collections in one file and rebuilds their chains; the API calls
-- it behind the rate limiter, the idempotency store and the permissions of a principal.
--
-- The GRDI service plans and simulates actions: an envelope is judged by the authority engine, a plan
-- by the gateway, and each record is appended in a transaction whose locks come from LedgerOps.
--
-- State is passed explicitly: an operation takes a store or an engine and returns its result, a
-- value or an exception, with the store or engine it leaves, so that what an operation has changed
-- before it raises is kept. A transaction's function is a Script: it returns, raises, or makes a
-- call and goes on from the answer, which may be an exception that it catches. The clock is an
-- argument of each call. Every function is total by structural recursion; no fuel is used.
--
-- The functions of Runtime are arbitrary: no result assumes that sha256 has no collisions or that
-- json.dumps is injective. The JSON file is the value that is written, not its text, so that the
-- file system and the text of JSON are left out. One thread is modelled, since the engine's lock is
-- held through each operation and each transaction; multiprocess mode is refused by the code.
-- Sequence numbers and versions are naturals; the limiter's times are numbers of ticks. The SQLite
-- backend of the evidence ledger is a table with its primary key; rows are read back as json.loads
-- makes them of sorted text. Lock references are checked against the writes of a transaction: the JSON
-- backend takes one lock for all of it, and none per reference.
--
-- Not modelled: the SQLite and Postgres backends of the scoped ledger and the migrations (their
-- databases are not part of the repository), the checks of tokens, the HTTP interfaces, the commits of
-- the GRDI service and its replay, the analysis kernels. hmac and its comparison are parameters too.
pub mod Prelude
pub mod Python
pub mod Transactions
pub mod ScopedLedger
pub mod Grdi
pub mod EvidenceLedger
pub mod RateLimiter
pub mod Idempotency
pub mod Policy
pub mod Security
