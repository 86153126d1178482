-- ===== src/Credentials/Lifecycle.antt =====
-- The state machine of the stored credentials over any sequence of calls, and the idempotency of
-- `persist`: src/routeweiler/credentials/store.py.
use routeweiler_python_sdk.Prelude.{
  ℕ, String, ◌≡◌, refl, inl, inr, Bool, true, false, Option, some, [], ◌∷◌, ◌++◌, ◌||◌, find?,
  find?-some, any, map, arith, eq_iff, Bool-cases, Option-cases, if◌then◌else◌,
}
use routeweiler_python_sdk.Credentials.{
  CredentialState, redeemed, manual_hold, ManualHoldReason, CredentialRecord, Table, Persist,
  valid_transition, has_credential_id, for_request, new_record, insert_or_ignore, persist_sync,
  moved, transition_sync,
}

-- A state that no edge leaves.
abbrev pub is_terminal : CredentialState → Bool
is_terminal redeemed = true
is_terminal manual_hold = true
is_terminal _ = false

terminal_stays :
    (s to_state : CredentialState) → is_terminal s ≡ true → valid_transition s to_state ≡ false
terminal_stays s to_state h = ground (arith, h)

-- One call on the store that writes.
pub data Call : Table → Table → Type 0 where
  persist : (now : ℕ) (i : String) (p : Persist) (t : Table) → Call t (persist_sync now i p t).1
  transition :
      (now : ℕ) (i : String) (s : CredentialState) (reason : Option ManualHoldReason) (t : Table)
      → Call t (transition_sync now i s reason t).1

pub data Calls (t : Table) : Table → Type 0 where
  start : Calls t t
  and_then : {u v : Table} → Calls t u → Call u v → Calls t v

find?-append :
    (p : CredentialRecord → Bool) (c d : CredentialRecord) (t : Table)
    → find? p t ≡ some c
    → find? p (t ++ d ∷ []) ≡ some c
find?-append p c d [] h = cc
find?-append p c d (r ∷ t) h = ground (arith, find?-append p c d t)

-- A write to another id.
find?-moved :
    (i j : String) (f : CredentialRecord → CredentialRecord) (c : CredentialRecord) (t : Table)
    → ((r : CredentialRecord) → (f r).credential_id ≡ r.credential_id)
    → has_credential_id i c ≡ false
    → find? (has_credential_id j) t ≡ some c
    → find? (has_credential_id j) (map (λ r. if has_credential_id i r then f r else r) t) ≡ some c
find?-moved i j f c [] keeps ne h = cc
find?-moved i j f c (r ∷ t) keeps ne h = elim (Bool-cases (has_credential_id j r)) [
  | inl here ↦
      let same : r ≡ c = ground (arith, here) in
      let other : has_credential_id i r ≡ false = rw same ne in rw (other, here, same)
  | inr there ↦ ground (arith, keeps r, there, find?-moved i j f c t keeps ne)
]

persist_sync_keeps :
    (now : ℕ) (i : String) (p : Persist) (j : String) (c : CredentialRecord) (t : Table)
    → find? (has_credential_id j) t ≡ some c
    → find? (has_credential_id j) (persist_sync now i p t).1 ≡ some c
unfolding persist_sync
persist_sync_keeps now i p j c t h =
    ground (arith, find?-append (has_credential_id j) c (new_record now i p) t h)

transition_sync_keeps :
    (now : ℕ) (i : String) (s : CredentialState) (reason : Option ManualHoldReason) (j : String)
    (c : CredentialRecord) (t : Table)
    → is_terminal c.state ≡ true
    → find? (has_credential_id j) t ≡ some c
    → find? (has_credential_id j) (transition_sync now i s reason t).1 ≡ some c
unfolding transition_sync
transition_sync_keeps now i s reason j c t ended h =
    elim (Option-cases (find? (has_credential_id i) t)) [
      | inl gone ↦ rw (gone, transition_sync) h
      | inr (d, there) ↦ elim (Bool-cases (has_credential_id i c)) [
        | inl same ↦
            let row = find?-some (has_credential_id j) t h in
            let ids : i ≡ j =
              ground (arith, eq_iff c.credential_id i, eq_iff c.credential_id j, same, row) in
            let one : d ≡ c = cc in
            rw (there, one, terminal_stays c.state s ended, transition_sync) h
        | inr other ↦
            let kept = find?-moved i j (moved now s reason) c t (λ r. refl) other h in
            ground (arith, kept, h, there)
      ]
    ]

-- A credential that is redeemed or on hold stays exactly as it is through every sequence of `persist`
-- and `transition` calls.
pub terminal_kept :
    (j : String) (c : CredentialRecord) {t u : Table}
    → is_terminal c.state ≡ true
    → find? (has_credential_id j) t ≡ some c
    → Calls t u
    → find? (has_credential_id j) u ≡ some c
terminal_kept j c ended h start = h
terminal_kept j c ended h (and_then r (persist now i p t)) =
    persist_sync_keeps now i p j c t (terminal_kept j c ended h r)
terminal_kept j c ended h (and_then r (transition now i s reason t)) =
    transition_sync_keeps now i s reason j c t ended (terminal_kept j c ended h r)

find?-any :
    (p q : CredentialRecord → Bool) (t : Table) {c : CredentialRecord}
    → find? q t ≡ some c
    → any (λ r. p r || q r) t ≡ true
find?-any p q [] h = cc
find?-any p q (r ∷ t) {c} h = ground (arith, find?-any p q t {c = c})

-- After a `persist` that returned a record, a `persist` for the same request and rail returns the same
-- record and changes nothing, whatever its other arguments are.
persist_sync_again :
    (now now' : ℕ) (i i' : String) (p p' : Persist) (t : Table) {c : CredentialRecord}
    → p'.request_id ≡ p.request_id
    → p'.rail ≡ p.rail
    → (persist_sync now i p t).0 ≡ some c
    → persist_sync now' i' p' (persist_sync now i p t).1 ≡ (some c, (persist_sync now i p t).1)
unfolding persist_sync
persist_sync_again now now' i i' p p' t {c} same_request same_rail h =
    let clash =
      find?-any (has_credential_id i') (for_request p.request_id p.rail)
        (insert_or_ignore (new_record now i p) t) h in
    rw (same_request, same_rail, clash) (rw h)
