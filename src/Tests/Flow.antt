-- ===== src/Tests/Flow.antt =====
-- The failover loop on two rails of which the first fails: src/routeweiler/_auth.py.
use routeweiler_python_sdk.Prelude.{
  ℕ, zero, suc, ◌≡◌, ◌≢◌, refl, ap, String, ◌<◌, ◌%◌, Option, none, some, [], ◌∷◌, map, All, arith,
}
use routeweiler_python_sdk.Prelude.Int.{ℤ, pos, ◌+ℤ◌, ◌-ℤ◌, ◌≤ℤ◌, int_laws}
use routeweiler_python_sdk.Normalized.{Rail, l402, mpp_tempo, NormalizedChallenge}
use routeweiler_python_sdk.Budgets.Draw.{
  reserved_sum, settled_sum, draw_sync, reserve, finish, rollback_sync,
}
use routeweiler_python_sdk.Budgets.Draw.Sums.{committed}
use routeweiler_python_sdk.Budgets.Draw.Sound.{Sound}
use routeweiler_python_sdk.Budgets.Receipts.{issue, verify_against_envelope}
use routeweiler_python_sdk.Budgets.Keystore.{load}
use routeweiler_python_sdk.Routing.{decide, key_lt}
use routeweiler_python_sdk.Routing.Sticky.{lookup, forget}
use routeweiler_python_sdk.Policy.{evaluate, matches, url_matches}
use routeweiler_python_sdk.Auth.{Auth, Payment, delivered, unfinished}
use routeweiler_python_sdk.Auth.Flow as Flow
use routeweiler_python_sdk.Auth.Flow.{async_auth_flow}
use routeweiler_python_sdk.Auth.Turns.{charge}
use routeweiler_python_sdk.Auth.Payments.{
  IsSafe, DistinctRails, rail_of, commits, async_auth_flow-ends, async_auth_flow-once,
  async_auth_flow-DistinctRails, async_auth_flow-IsSafe,
}
use routeweiler_python_sdk.Auth.Rows.{IsSettled}
use routeweiler_python_sdk.Texts.{codes}
use routeweiler_python_sdk.Budgets.Schema.{Currency}
use routeweiler_python_sdk.Budgets.Fmv.{FmvQuality, amount_to_envelope_minor_units}
use routeweiler_python_sdk.Budgets.Fmv.Nonneg.{amount_to_envelope_minor_units-nonneg}
use routeweiler_python_sdk.Tests.Decimal.{decimals, ordered, fair}
use routeweiler_python_sdk.Tests.Money.{snapshot}
use routeweiler_python_sdk.Auth.Settlement.{
  HasPrices, async_auth_flow-IsSettled, async_auth_flow-Sound,
}
use routeweiler_python_sdk.Tests.{
  ed, envelope, empty, challenge, setup, working, broken, auth, world, unary,
}

-- The second rail is paid after the first has failed.
two_rails :
    ((async_auth_flow auth 402 world).0 ≡ delivered 200)
    × (map (rail_of auth 402) (async_auth_flow auth 402 world).1.payments ≡ mpp_tempo ∷ l402 ∷ [])
unfolding async_auth_flow Flow.turn decide evaluate matches url_matches lookup key_lt draw_sync
    reserve ◌-ℤ◌ ◌+ℤ◌ reserved_sum settled_sum finish load verify_against_envelope issue forget
    Flow.confirm_draw_safe Flow.draw_phase Flow.handle_credential_post_response Flow.pay_candidate
    Flow.rollback_safe rollback_sync
two_rails = (refl, refl)

async_auth_flow-ends_example : (async_auth_flow auth 402 world).0 ≢ unfinished
async_auth_flow-ends_example = async_auth_flow-ends auth 402 world refl

async_auth_flow-once_example :
    commits auth 402 (async_auth_flow auth 402 world).1.payments
    ≡ charge (async_auth_flow auth 402 world).0
async_auth_flow-once_example = async_auth_flow-once auth 402 world refl

async_auth_flow-DistinctRails_example :
    DistinctRails (map (rail_of auth 402) (async_auth_flow auth 402 world).1.payments)
async_auth_flow-DistinctRails_example = async_auth_flow-DistinctRails auth 402 world refl

async_auth_flow-IsSafe_example : All (IsSafe auth 402) (async_auth_flow auth 402 world).1.payments
async_auth_flow-IsSafe_example = async_auth_flow-IsSafe auth 402 world refl

unary_injective : (m n : ℕ) → unary m ≡ unary n → m ≡ n
unary_injective zero zero h = refl
unary_injective zero (suc n) h = cc
unary_injective (suc m) zero h = cc
unary_injective (suc m) (suc n) h = ap suc (unary_injective m n cc)

abbrev amount_of : Option (ℤ × FmvQuality) → Option ℤ
amount_of none = none
amount_of (some (q, _)) = some q

-- The conversion of the program at a snapshot, for challenges in satoshis, and keys of which there are
-- five.
abbrev in_sats : Rail → NormalizedChallenge
in_sats r = record (challenge r) {
  price = record { amount = pos 500; currency = "btc-lightning"; human_amount = "500" };
}

abbrev converting : Auth ed ℕ ℕ ℕ ℕ
converting = record auth {
  setup = record setup {
    convert = λ c a to. amount_of (amount_to_envelope_minor_units decimals (codes c) a to snapshot);
    adapters =
        record working { parse = λ req response. some (in_sats mpp_tempo) }
        ∷ record broken { parse = λ req response. some (in_sats l402) }
        ∷ [];
  };
  idempotency_key = λ id n. unary (n % 5);
}

converted :
    map (λ (p : Payment ℕ ℕ ℕ). p.candidate.quote) (async_auth_flow converting 402 world).1.payments
    ≡ some (pos 35) ∷ some (pos 35) ∷ []
unfolding async_auth_flow Flow.turn decide evaluate matches url_matches lookup key_lt draw_sync
    reserve ◌-ℤ◌ ◌+ℤ◌ reserved_sum settled_sum finish load verify_against_envelope issue forget
    Flow.confirm_draw_safe Flow.draw_phase Flow.handle_credential_post_response Flow.pay_candidate
    Flow.rollback_safe rollback_sync amount_to_envelope_minor_units
converted = refl

five_keys : (m n : ℕ) → m < 5 → n < 5 → unary (m % 5) ≡ unary (n % 5) → m ≡ n
five_keys m n few less h = let same = unary_injective (m % 5) (n % 5) h in omega arith

converted_nonneg :
    (c : String) (a : ℤ) (to : Currency) (q : ℤ)
    → pos 0 ≤ℤ a
    → converting.setup.convert c a to ≡ some q
    → pos 0 ≤ℤ q
converted_nonneg c a to q h e =
    go (amount_to_envelope_minor_units decimals (codes c) a to snapshot) refl e
  where
    go :
        (x : Option (ℤ × FmvQuality))
        → amount_to_envelope_minor_units decimals (codes c) a to snapshot ≡ x
        → amount_of x ≡ some q
        → pos 0 ≤ℤ q
    go none known k = cc
    go (some (p, _)) known k =
        let fine =
          amount_to_envelope_minor_units-nonneg decimals ordered (codes c) a to snapshot
            (fair 65_000, tt) h known in
        let same : p ≡ q = cc in rw (← same) fine

priced : All (HasPrices converting 402) converting.setup.adapters
priced = (
  λ c h. let same : in_sats mpp_tempo ≡ c = cc in rw (← same) (omega arith),
  (λ c h. let same : in_sats l402 ≡ c = cc in rw (← same) (omega arith), tt),
)

async_auth_flow-IsSettled_example :
    All
      (λ (p : Payment ℕ ℕ ℕ).
        IsSettled (async_auth_flow converting 402 world).1.db p.receipt p.outcome)
      (async_auth_flow converting 402 world).1.payments
async_auth_flow-IsSettled_example =
    async_auth_flow-IsSettled converting 402 five_keys converted_nonneg priced world refl
      (λ env m few. refl)

empty-Sound : Sound envelope empty
unfolding committed
empty-Sound = record { found = refl; distinct = tt; nonneg = tt; within = omega int_laws }

async_auth_flow-Sound_example :
    Sound envelope (async_auth_flow converting 402 world).1.db
    × (reserved_sum "env" (async_auth_flow converting 402 world).1.db
          +ℤ settled_sum "env" (async_auth_flow converting 402 world).1.db
        ≤ℤ pos 100)
async_auth_flow-Sound_example =
    async_auth_flow-Sound converting 402 five_keys converted_nonneg priced world refl
      (λ env m few. refl) envelope empty-Sound
