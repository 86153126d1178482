-- ===== src/Budgets/Draw.antt =====
-- src/routeweiler/budgets/_draw.py and _reaper.py: the life of a draw. SELECT, UPDATE and INSERT
-- are the searches, maps and appends on the tables that they denote.
pub mod Sums
pub mod Cases
pub mod Drawn
pub mod Cap
pub mod Replay
pub mod Lifecycle
pub mod Sound
pub mod Runs
pub mod Late
use routeweiler_python_sdk.Prelude.{
  ℕ, ◌+◌, ◌*◌, String, Bool, true, false, Option, none, some, List, [], ◌∷◌, ◌++◌, not, ◌&&◌, ◌||◌,
  str_eq, leb, ltb, find?, any, filter, length, map, if◌then◌else◌,
}
use routeweiler_python_sdk.Prelude.Int.{ℤ, pos, ◌+ℤ◌, ◌-ℤ◌, ltb_ℤ}
use routeweiler_python_sdk.Normalized.{Rail}
use routeweiler_python_sdk.Budgets.Schema.{
  Envelope, Draw, DrawState, reserved, settled, rolled_back, is_active, is_reserved, is_settled,
  DrawReceipt, Db,
}
use routeweiler_python_sdk.Budgets.Errors.{
  ok, err, Action, budget_exceeded, envelope_not_found, envelope_frozen, envelope_expired,
  budget_error, integrity, pure, raise, lift, gets, or_raise, transaction, raise_if, modify, ◌>>=◌,
  ◌>>◌,
}
use routeweiler_python_sdk.Budgets.Receipts.{Ed25519, issue, verify_against_envelope}
use routeweiler_python_sdk.Budgets.Keystore.{Files, load}

-- Microseconds in a second, the resolution of `datetime`.
abbrev pub second : ℕ
second = 1_000_000

-- `CLOCK_SKEW_BUFFER_SECONDS`
abbrev pub clock_skew_buffer_seconds : ℕ
clock_skew_buffer_seconds = 30

-- The keyword arguments of `draw_sync`.
pub record DrawRequest : Type 0 where
  pub envelope_id : String
  pub request_id : String
  pub idempotency_key : String
  pub amount : ℤ
  pub rail_quoted : Rail
  pub ttl_seconds : ℕ

abbrev pub has_envelope_id : String → Envelope → Bool
has_envelope_id i e = str_eq e.id i

abbrev pub has_id : String → Draw → Bool
has_id i d = str_eq d.id i

-- WHERE envelope_id = ? AND idempotency_key = ?
abbrev pub has_key : String → String → Draw → Bool
has_key env key d = str_eq d.envelope_id env && str_eq d.idempotency_key key

-- What a draw adds to SUM(amount_reserved_minor_units) … state = 'reserved'
abbrev pub reserved_amount : String → Draw → ℤ
reserved_amount env d =
    if str_eq d.envelope_id env && is_reserved d.state then d.amount_reserved else pos 0

abbrev pub or_zero : Option ℤ → ℤ
or_zero none = pos 0
or_zero (some a) = a

-- What a draw adds to SUM(amount_settled_minor_units) … state = 'settled'; SUM skips NULL.
abbrev pub settled_amount : String → Draw → ℤ
settled_amount env d =
    if str_eq d.envelope_id env && is_settled d.state then or_zero d.amount_settled else pos 0

-- COALESCE(SUM(…), 0)
abbrev pub sum : (Draw → ℤ) → List Draw → ℤ
sum f [] = pos 0
sum f (d ∷ ds) = f d +ℤ sum f ds

unfoldable pub reserved_sum : String → Db → ℤ
reserved_sum env db = sum (reserved_amount env) db.draws

unfoldable pub settled_sum : String → Db → ℤ
settled_sum env db = sum (settled_amount env) db.draws

-- INSERT INTO draws, under the constraints of the table: PRIMARY KEY (id), UNIQUE (envelope_id,
-- idempotency_key) and the reference to `envelopes`.
unfoldable pub insert : Draw → Action Db Unit
insert d = do
  clash ←
      gets (λ db. any (λ r. has_id d.id r || has_key d.envelope_id d.idempotency_key r) db.draws)
  parent ← gets (λ db. any (has_envelope_id d.envelope_id) db.envelopes)
  raise_if (clash || not parent) integrity
  modify (λ db. record db { draws = db.draws ++ d ∷ [] })

-- The row of a new draw.
abbrev pub new_draw : ℕ → String → DrawRequest → Draw
new_draw now i q = record {
  id = i;
  envelope_id = q.envelope_id;
  request_id = q.request_id;
  idempotency_key = q.idempotency_key;
  amount_reserved = q.amount;
  amount_settled = none;
  rail_quoted = q.rail_quoted;
  state = reserved;
  issued_at = now;
  expires_at = now + (q.ttl_seconds + clock_skew_buffer_seconds) * second;
  settled_at = none;
}

-- The receipt of a row before it is signed.
abbrev pub unsigned : Envelope → Draw → DrawReceipt
unsigned e d = record {
  receipt_id = d.id;
  envelope_id = d.envelope_id;
  request_id = d.request_id;
  idempotency_key = d.idempotency_key;
  amount_reserved = d.amount_reserved;
  currency = e.cap_currency;
  rail_quoted = d.rail_quoted;
  issued_at = d.issued_at;
  expires_at = d.expires_at;
  counter_public_key = e.counter_public_key;
  signature = "";
}

-- How the transaction of `draw_sync` ends: with the row that the key already has, or a new one.
pub data Outcome : Type 0 where
  existing inserted : Envelope → Draw → Outcome

-- The cap check and the INSERT.
unfoldable pub reserve_new : ℕ → String → DrawRequest → Envelope → Action Db Outcome
unfolding insert
reserve_new now i q e = do
  r ← gets (reserved_sum q.envelope_id)
  s ← gets (settled_sum q.envelope_id)
  let available = e.cap_minor_units -ℤ r -ℤ s
  raise_if (ltb_ℤ available q.amount) (budget_exceeded q.envelope_id q.amount available)
  insert (new_draw now i q)
  pure (inserted e (new_draw now i q))

abbrev pub or_reserve : ℕ → String → DrawRequest → Envelope → Option Draw → Action Db Outcome
or_reserve now i q e (some d) = pure (existing e d)
or_reserve now i q e none = reserve_new now i q e

-- The body of the transaction, from the SELECT on `envelopes` to the COMMIT.
unfoldable pub reserve : ℕ → String → DrawRequest → Action Db Outcome
unfolding reserve_new
reserve now i q = do
  row ← gets (λ db. find? (has_envelope_id q.envelope_id) db.envelopes)
  e ← or_raise row envelope_not_found
  raise_if (not (is_active e.status)) envelope_frozen
  raise_if (leb e.expires_at now) envelope_expired
  old ← gets (λ db. find? (has_key q.envelope_id q.idempotency_key) db.draws)
  or_reserve now i q e old

-- UPDATE draws SET … WHERE id = ? AND …
abbrev pub update : (Draw → Bool) → (Draw → Draw) → Db → Db
update p f db = record db { draws = map (λ d. if p d then f d else d) db.draws }

abbrev pub roll_back : Draw → Draw
roll_back d = record d { state = rolled_back }

-- `rollback_sync`. The row count is positive exactly when a row passes the WHERE clause.
unfoldable pub rollback_sync : String → Action Db Unit
rollback_sync i = do
  let live = λ (d : Draw). has_id i d && is_reserved d.state
  hit ← gets (λ db. any live db.draws)
  modify (update live roll_back)
  row ← gets (λ db. find? (has_id i) db.draws)
  if hit then pure tt else (do or_raise row budget_error; pure tt)

abbrev pub settle : ℕ → ℤ → Draw → Draw
settle now amount d = record d {
  state = settled;
  amount_settled = some amount;
  settled_at = some now;
}

abbrev pub can_settle : DrawState → Bool
can_settle settled = false
can_settle _ = true

-- `confirm_sync`: a missing row raises, a settled one stays as it is.
unfoldable pub confirm_sync : ℕ → String → ℤ → Action Db Unit
confirm_sync now i amount = do
  prior ← gets (λ db. find? (has_id i) db.draws)
  or_raise prior budget_error
  modify (update (λ d. has_id i d && can_settle d.state) (settle now amount))

abbrev pub is_stale : ℕ → Draw → Bool
is_stale now d = is_reserved d.state && ltb d.expires_at now

-- `reap_sync`, with the row count.
unfoldable pub reap_sync : ℕ → Db → ℕ × Db
reap_sync now db = (length (filter (is_stale now) db.draws), update (is_stale now) roll_back db)

module _ (ed : Ed25519) where
  open ed use {PrivateKey}

  -- The handler around `verify_against_envelope`: the draw is rolled back and the error raised.
  abbrev pub or_rollback : String → Action Db Unit → Action Db Unit
  or_rollback i m db =
      let (r, db') = m db in
      elim r [ ok _ ↦ (ok tt, db') | err x ↦ (rollback_sync i >> raise x) db' ]

  -- What follows the COMMIT. An error here finds no open transaction to roll back.
  unfoldable pub finish : Bool → Files PrivateKey → Outcome → Action Db DrawReceipt
  finish posix files (existing e d) = do
    key ← lift (load posix d.envelope_id files)
    pure (issue ed key (unsigned e d))
  finish posix files (inserted e d) = do
    key ← lift (load posix d.envelope_id files)
    let receipt = issue ed key (unsigned e d)
    or_rollback d.id (verify_against_envelope ed receipt)
    pure receipt

  -- `draw_sync`
  unfoldable pub draw_sync :
      Bool → Files PrivateKey → ℕ → String → DrawRequest → Action Db DrawReceipt
  draw_sync posix files now i q = do
    outcome ← transaction (reserve now i q)
    finish posix files outcome
