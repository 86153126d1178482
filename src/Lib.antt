-- ===== src/Lib.antt =====
-- Routeweiler, the Python SDK under src/routeweiler: an HTTP client that answers a 402 by a payment on
-- one of several rails, within a policy and a budget envelope.
--
-- The parts and the files that model them:
-- - Auth.antt and Auth/Flow.antt: src/routeweiler/_auth.py. `Auth` is RouteweilerAuth with what its
--   environment returns; `World` is the state that a flow changes: the budget tables, the sticky
--   cache, the credentials, and the calls of `pay` so far. `turn` is the body of the failover loop,
--   `settle_outcome` what follows each outcome of `pay`, `async_auth_flow` the whole flow. The loop
--   runs on fuel; every turn that fails over excludes a rail, so a turn for each of the four rails
--   and one more are enough.
-- - Budgets/Draw.antt: src/routeweiler/budgets/_draw.py and _reaper.py. The two tables are lists of
--   rows; `draw_sync`, `confirm_sync` and `rollback_sync` are actions that may raise and return the
--   tables that they leave, also beside an error.
-- - Budgets/Schema.antt, Errors.antt, Receipts.antt and Keystore.antt: the rows and receipts of
--   src/routeweiler/budgets/schema.py and _storage.py, the exceptions of src/routeweiler/errors.py,
--   and src/routeweiler/budgets/receipts.py and keystore.py.
-- - Routing.antt and Routing/Sticky.antt: src/routeweiler/routing/router.py and sticky.py, with the
--   adapter protocol of src/routeweiler/rails/base.py.
-- - Credentials.antt: src/routeweiler/credentials/schema.py and store.py. The table is a list of rows.
-- - Budgets/Store.antt and Budgets/Store/Refresh.antt: src/routeweiler/budgets/local.py, _snapshot.py and
--   _sync_reads.py. `Store` is the tables, the key directory and the snapshots of one BudgetStore;
--   `create_envelope` and the refreshes of the rates act on it.
-- - Budgets/Fmv.antt with Trace.antt and Capture.antt below it: src/routeweiler/budgets/fmv.py.
--   Assets.antt: src/routeweiler/assets.py, with the tables that are computed at import.
-- - Tempo.antt, the RLP encoder, and Tempo/Transaction.antt: src/routeweiler/rails/_tempo_tx.py.
--   Tempo/Decode.antt is a decoder for RLP, and Tempo/Meaning.antt says what its items stand for; they
--   are no part of the program. The fuel of the decoder is twice the length of the input, which is
--   enough since each call reads a byte or ends a list.
-- - Credentials/Recovery.antt: src/routeweiler/credentials/recovery.py, the recovery of a response with a
--   stored credential. Credentials/Manifests.antt: the strategy of
--   src/routeweiler/credentials/manifest_strategy.py, the lookup of manifests/loader.py, and the caveats
--   of src/routeweiler/_macaroon.py.
-- - Bolt11.antt: src/routeweiler/rails/_bolt11.py. The loop over the fields runs on fuel; a turn takes
--   fifteen bits or more, so as many turns as there are bits are enough. Bolt11/Fields.antt writes fields
--   as bits and is no part of the program. L402.antt and L402/Payment.antt: the challenge and the
--   payment of src/routeweiler/rails/l402.py.
-- - Mpp.antt: the two MPP rails. Of src/routeweiler/rails/_mpp_http.py, Mpp/Base64.antt has base64url,
--   Mpp/Jcs.antt the canonical JSON, Mpp/Params.antt the parameters of a header, Mpp/Envelope.antt and
--   Mpp/Fields.antt challenges and credentials, and Mpp/Receipts.antt receipts. Mpp/Tempo.antt is
--   src/routeweiler/rails/mpp_tempo.py, with the wallet of src/routeweiler/funding/tempo.py in
--   Mpp/Tempo/Wallet.antt; Mpp/Spt.antt is mpp_spt.py; the payments of both are in a module Payment
--   below. A scan of the parameters runs on the length of the text, since every turn takes a character.
--   Mpp/Jcs/Reader.antt is a reader of JSON that is no part of the program, on the length of the text as
--   well. Exclusive.antt compares the detectors of the adapters that read WWW-Authenticate.
-- - X402.antt: src/routeweiler/rails/x402.py, with the entries of a challenge and the EVM wallets;
--   X402/Settled.antt and L402/Handled.antt have the settlements and detectors of x402.py and l402.py.
-- - Bytes.antt and Texts.antt: what Python's int, bytes, str and dict do, as far as the code uses it.
-- - Policy.antt: src/routeweiler/policy/dsl.py and engine.py.
-- - Normalized.antt: src/routeweiler/normalized.py.
-- - Prelude.antt: shared names, tests, lists and integers. Tests.antt: concrete inputs.
-- The flow calls the router, the router the policy and the adapters; the flow draws from the counter,
-- calls `pay`, and settles the draw.
--
-- Amounts are unbounded integers as in Python, datetimes are numbers of microseconds. Parameters of
-- the model: Ed25519 with the base64 around it, the URL parser, `str.lower`, `re` and `fnmatch`, the
-- decoding of UTF-8, pymacaroons, the reader of JSON, ISO dates, pydantic, the x402 SDK, Stripe, the
-- Lightning node, the clock, `uuid7`, SHA-256, the server, the
-- conversion of amounts, the rounding of `float`, Decimal, the rate providers, Keccak, secp256k1, and,
-- for the flow, the adapters' methods and the operations on the stored credentials. Calls on the counter run one after another, as
-- its lock and `BEGIN IMMEDIATE` make them; within a flow no other task changes the tables, and
-- Budgets/Draw/Runs.antt has sequences of calls of several tasks, with the conditions on them.
--
-- Not modelled: the network clients of the funding sources, with Stripe and the JSON-RPC that fetches a
-- nonce; the requests of the rate providers, the tasks that time the refreshes, the quality flags of a
-- snapshot, amounts printed for people, the traces, and the wiring of the client, all of which is I/O or
-- carries no decision. The flow takes the adapters and the recovery as parameters; they are modelled on
-- their own.
pub mod Prelude
pub mod Normalized
pub mod Budgets
pub mod Policy
pub mod Routing
pub mod Credentials
pub mod Auth
pub mod Tests
pub mod Bytes
pub mod Tempo
pub mod Bolt11
pub mod L402
pub mod Mpp
pub mod X402
pub mod Exclusive
pub mod Texts
pub mod Assets
