-- ===== src/Credentials/Recovery.antt =====
-- src/routeweiler/credentials/recovery.py: the recovery of a response with a stored credential. Errors of
-- the database itself, traces and logs are left out; a strategy may raise.
use routeweiler_python_sdk.Prelude.{ℕ, String, Bool, false, Option, none, some, leb, if◌then◌else◌}
use routeweiler_python_sdk.Credentials.{
  recovering, redeemed, manual_hold, state_eq, ManualHoldReason, exhausted, expired,
  CredentialRecord, stored, raised, Table, get_sync, transition_sync,
}
use routeweiler_python_sdk.Credentials.Lifecycle.{is_terminal}

-- `RecoveryOutcome`
pub record RecoveryOutcome (Resp : Type 0) : Type 0 where
  pub succeeded : Bool
  pub response : Option Resp
  pub reason : Option ManualHoldReason

-- When the calls of one recovery happen.
pub record Times : Type 0 where
  pub checked : ℕ
  pub entered : ℕ
  pub ended : ℕ

-- `mark_redeemed`: an error of the store is logged.
unfoldable pub mark_redeemed : ℕ → String → Table → Table
unfolding transition_sync
mark_redeemed now i t = (transition_sync now i redeemed none t).1

-- `_terminal`: an error of the store is logged.
unfoldable pub terminal : ℕ → String → ManualHoldReason → Table → Table
unfolding transition_sync
terminal now i reason t = (transition_sync now i manual_hold (some reason) t).1

abbrev pub or_exhausted : Option ManualHoldReason → ManualHoldReason
or_exhausted none = exhausted
or_exhausted (some reason) = reason

abbrev pub is_expired : ℕ → Option ℕ → Bool
is_expired now none = false
is_expired now (some at) = leb at now

-- `RecoveryStrategy.recover`; `none` is an exception.
abbrev pub Strategy : Type 0 → Type 0
Strategy Resp = CredentialRecord → Option Resp → Option (RecoveryOutcome Resp)

module _ {Resp : Type 0} where
  abbrev pub failed_for : Option ManualHoldReason → RecoveryOutcome Resp
  failed_for reason = record { succeeded = false; response = none; reason = reason }

  -- `NoOpRecoveryStrategy`
  abbrev pub no_op : Strategy Resp
  no_op credential last_response = some (failed_for (some exhausted))

  abbrev pub outcome_or_exhausted : Option (RecoveryOutcome Resp) → RecoveryOutcome Resp
  outcome_or_exhausted none = failed_for (some exhausted)
  outcome_or_exhausted (some outcome) = outcome

  -- What follows the strategy.
  unfoldable pub conclude : ℕ → String → RecoveryOutcome Resp → Table → RecoveryOutcome Resp × Table
  unfolding terminal mark_redeemed
  conclude now i outcome t =
      let reason = or_exhausted outcome.reason in
      if outcome.succeeded
      then (outcome, mark_redeemed now i t)
      else (failed_for (some reason), terminal now i reason t)

  -- From the transition to RECOVERING on.
  unfoldable pub enter :
      Strategy Resp → Times → String → Option Resp → Table → RecoveryOutcome Resp × Table
  unfolding transition_sync conclude
  enter strategy times i last_response t =
      let (r, t') = transition_sync times.entered i recovering none t in
      elim r [
        | raised e ↦ (failed_for (some exhausted), t')
        | stored c ↦ conclude times.ended i (outcome_or_exhausted (strategy c last_response)) t'
      ]

  -- `attempt_recovery`
  unfoldable pub attempt_recovery :
      Strategy Resp → Times → String → Option Resp → Table → RecoveryOutcome Resp × Table
  unfolding get_sync enter terminal
  attempt_recovery strategy times i last_response t = elim (get_sync i t) [
    | none ↦ (failed_for (some exhausted), t)
    | some c ↦
        if is_terminal c.state
        then (
          record {
            succeeded = state_eq c.state redeemed;
            response = none;
            reason = c.manual_hold_reason;
          },
          t,
        )
        else if is_expired times.checked c.expires_at
        then (failed_for (some expired), terminal times.checked i expired t)
        else enter strategy times i last_response t
  ]
