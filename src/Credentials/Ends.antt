-- ===== src/Credentials/Ends.antt =====
-- Every recovery ends the life of its credential.
use routeweiler_python_sdk.Prelude.{
  ℕ, String, ◌≡◌, refl, inl, inr, true, false, Option, none, some, [], ◌∷◌, find?, map, arith,
  Bool-cases, if◌then◌else◌,
}
use routeweiler_python_sdk.Credentials.{
  CredentialState, recovering, redeemed, manual_hold, state_eq, ManualHoldReason, expired,
  CredentialRecord, stored, Table, valid_transition, has_credential_id, lacks_reason, moved,
  get_sync, transition_sync,
}
use routeweiler_python_sdk.Credentials.Lifecycle.{is_terminal}
use routeweiler_python_sdk.Credentials.Recovery.{
  RecoveryOutcome, Times, failed_for, Strategy, mark_redeemed, terminal, or_exhausted,
  outcome_or_exhausted, conclude, enter, is_expired, attempt_recovery,
}

-- The row that an UPDATE has changed.
find?-updated :
    (i : String) (f : CredentialRecord → CredentialRecord) (c : CredentialRecord) (t : Table)
    → ((r : CredentialRecord) → (f r).credential_id ≡ r.credential_id)
    → find? (has_credential_id i) t ≡ some c
    → find? (has_credential_id i) (map (λ r. if has_credential_id i r then f r else r) t)
      ≡ some (f c)
find?-updated i f c [] keeps h = cc
find?-updated i f c (r ∷ t) keeps h = elim (Bool-cases (has_credential_id i r)) [
  | inl here ↦ ground (arith, here, keeps r, h)
  | inr there ↦ ground (arith, keeps r, there, find?-updated i f c t keeps)
]

-- A legal transition of a row.
transition_sync_lem :
    (now : ℕ) (i : String) (s : CredentialState) (reason : Option ManualHoldReason)
    (c : CredentialRecord) (t : Table)
    → get_sync i t ≡ some c
    → valid_transition c.state s ≡ true
    → lacks_reason s reason ≡ false
    → ((transition_sync now i s reason t).0 ≡ stored (moved now s reason c))
      × (get_sync i (transition_sync now i s reason t).1 ≡ some (moved now s reason c))
unfolding transition_sync get_sync
transition_sync_lem now i s reason c t h v l =
    let kept = find?-updated i (moved now s reason) c t (λ r. refl) h in
    ground (arith, h, v, l, kept)

live-moves :
    (s : CredentialState)
    → is_terminal s ≡ false
    → (valid_transition s recovering ≡ true)
      × (valid_transition s redeemed ≡ true)
      × (valid_transition s manual_hold ≡ true)
live-moves s h = ground (arith, h)

-- What a recovery leaves of the row of its credential: a terminal state, redeemed exactly if it reports
-- success.
abbrev pub Ended : {Resp : Type 0} → String → RecoveryOutcome Resp × Table → Type 0
Ended i (outcome, t) =
    (c : CredentialRecord) × (get_sync i t ≡ some c)
    × (is_terminal c.state ≡ true)
    × (state_eq c.state redeemed ≡ outcome.succeeded)

terminal-Ended :
    (Resp : Type 0) (now : ℕ) (i : String) (reason : ManualHoldReason) (c : CredentialRecord)
    (t : Table)
    → get_sync i t ≡ some c
    → is_terminal c.state ≡ false
    → Ended {Resp = Resp} i (failed_for (some reason), terminal now i reason t)
unfolding terminal
terminal-Ended Resp now i reason c t h live =
    let (_, found) =
      transition_sync_lem now i manual_hold (some reason) c t h (live-moves c.state live).2 refl in
    (moved now manual_hold (some reason) c, found, refl, refl)

module _ {Resp : Type 0} where
  conclude-Ended :
      (now : ℕ) (i : String) (outcome : RecoveryOutcome Resp) (c : CredentialRecord) (t : Table)
      → get_sync i t ≡ some c
      → is_terminal c.state ≡ false
      → Ended i (conclude now i outcome t)
  unfolding conclude mark_redeemed
  conclude-Ended now i outcome c t h live = elim (Bool-cases outcome.succeeded) [
    | inl well ↦
        let (_, found) =
          transition_sync_lem now i redeemed none c t h (live-moves c.state live).1 refl in
        rw well (moved now redeemed none c, found, refl, refl)
    | inr badly ↦ rw badly (terminal-Ended Resp now i (or_exhausted outcome.reason) c t h live)
  ]

  enter-Ended :
      (strategy : Strategy Resp) (times : Times) (i : String) (last_response : Option Resp)
      (c : CredentialRecord) (t : Table)
      → get_sync i t ≡ some c
      → is_terminal c.state ≡ false
      → Ended i (enter strategy times i last_response t)
  unfolding enter
  enter-Ended strategy times i last_response c t h live =
      let (ran, found) =
        transition_sync_lem times.entered i recovering none c t h (live-moves c.state live).0
          refl in
      let c' = moved times.entered recovering none c in
      rw (ran, enter)
        (conclude-Ended times.ended i (outcome_or_exhausted (strategy c' last_response)) c'
          (transition_sync times.entered i recovering none t).1 found refl)

  attempt_recovery-Ended :
      (strategy : Strategy Resp) (times : Times) (i : String) (last_response : Option Resp)
      (c : CredentialRecord) (t : Table)
      → get_sync i t ≡ some c
      → Ended i (attempt_recovery strategy times i last_response t)
  unfolding attempt_recovery
  attempt_recovery-Ended strategy times i last_response c t h =
      rw (h, attempt_recovery)
        (elim (Bool-cases (is_terminal c.state)) [
          | inl over ↦ rw over (c, h, over, refl)
          | inr live ↦ rw live (elim (Bool-cases (is_expired times.checked c.expires_at)) [
            | inl late ↦ rw late (terminal-Ended Resp times.checked i expired c t h live)
            | inr early ↦ rw early (enter-Ended strategy times i last_response c t h live)
          ])
        ])

  again :
      (strategy : Strategy Resp) (times : Times) (i : String) (last_response : Option Resp)
      (p : RecoveryOutcome Resp × Table)
      → Ended i p
      → ((attempt_recovery strategy times i last_response p.1).0.succeeded ≡ p.0.succeeded)
        × ((attempt_recovery strategy times i last_response p.1).1 ≡ p.1)
  unfolding attempt_recovery
  again strategy times i last_response (outcome, t) (c, found, over, same) =
      ground (arith, found, over, same)

  -- Whatever the strategy returns or raises, a recovery of a stored credential leaves it in a terminal
  -- state, redeemed exactly if the recovery reports success; a second recovery, with any strategy, reports
  -- the same success and changes nothing.
  pub attempt_recovery_ends :
      (strategy : Strategy Resp) (times : Times) (i : String) (last_response : Option Resp)
      (t : Table) (c : CredentialRecord)
      → get_sync i t ≡ some c
      → (Ended i (attempt_recovery strategy times i last_response t)
          × ((strategy' : Strategy Resp) (times' : Times) (last_response' : Option Resp)
              → ((attempt_recovery strategy' times' i last_response'
                    (attempt_recovery strategy times i last_response t).1).0.succeeded
                  ≡ (attempt_recovery strategy times i last_response t).0.succeeded)
                × ((attempt_recovery strategy' times' i last_response'
                      (attempt_recovery strategy times i last_response t).1).1
                    ≡ (attempt_recovery strategy times i last_response t).1)))
  attempt_recovery_ends strategy times i last_response t c h =
      let ended = attempt_recovery-Ended strategy times i last_response c t h in
      (
        ended,
        λ strategy' times' last_response'.
            again strategy' times' i last_response'
              (attempt_recovery strategy times i last_response t) ended,
      )
