-- ===== src/Credentials.antt =====
-- src/routeweiler/credentials/schema.py and store.py: the stored credentials and the state machine of
-- each. The table is a list of rows; the JSON of a payload is opaque.
pub mod Lifecycle
pub mod Recovery
pub mod Ends
pub mod Manifests
pub mod Attempts
use routeweiler_python_sdk.Prelude.{
  ℕ, String, Bool, true, false, Option, none, some, List, [], ◌∷◌, ◌++◌, ◌&&◌, ◌||◌, str_eq, find?,
  any, filter, map, if◌then◌else◌,
}
use routeweiler_python_sdk.Normalized.{Rail, rail_eq}

-- `CredentialState`
pub data CredentialState : Type 0 where
  persisted recovering redeemed manual_hold : CredentialState

abbrev pub state_eq : CredentialState → CredentialState → Bool
state_eq persisted persisted = true
state_eq recovering recovering = true
state_eq redeemed redeemed = true
state_eq manual_hold manual_hold = true
state_eq _ _ = false

-- `ManualHoldReason`
pub data ManualHoldReason : Type 0 where
  exhausted expired : ManualHoldReason

-- `CredentialRecord`
pub record CredentialRecord : Type 0 where
  pub credential_id : String
  pub request_id : String
  pub rail : Rail
  pub challenge_url : String
  pub payload : String
  pub state : CredentialState
  pub manual_hold_reason : Option ManualHoldReason
  pub persisted_at : ℕ
  pub redeemed_at : Option ℕ
  pub last_transition_at : ℕ
  pub expires_at : Option ℕ

-- The exceptions of `transition`.
pub data StoreError : Type 0 where
  credential_not_found invalid_transition : StoreError

pub data Stored : Type 0 where
  stored : CredentialRecord → Stored
  raised : StoreError → Stored

abbrev pub Table : Type 0
Table = List CredentialRecord

-- `to_state in _VALID_TRANSITIONS[current_state]`
abbrev pub valid_transition : CredentialState → CredentialState → Bool
valid_transition persisted persisted = false
valid_transition persisted _ = true
valid_transition recovering persisted = false
valid_transition recovering _ = true
valid_transition _ _ = false

abbrev pub has_credential_id : String → CredentialRecord → Bool
has_credential_id i c = str_eq c.credential_id i

-- WHERE request_id = ? AND rail = ?
abbrev pub for_request : String → Rail → CredentialRecord → Bool
for_request request_id rail c = str_eq c.request_id request_id && rail_eq c.rail rail

-- The arguments of `persist`.
pub record Persist : Type 0 where
  pub request_id : String
  pub rail : Rail
  pub challenge_url : String
  pub payload : String
  pub expires_at : Option ℕ

abbrev pub new_record : ℕ → String → Persist → CredentialRecord
new_record now i p = record {
  credential_id = i;
  request_id = p.request_id;
  rail = p.rail;
  challenge_url = p.challenge_url;
  payload = p.payload;
  state = persisted;
  manual_hold_reason = none;
  persisted_at = now;
  redeemed_at = none;
  last_transition_at = now;
  expires_at = p.expires_at;
}

-- INSERT OR IGNORE, under PRIMARY KEY (credential_id) and the unique index on (request_id, rail).
abbrev pub insert_or_ignore : CredentialRecord → Table → Table
insert_or_ignore c t =
    if any (λ r. has_credential_id c.credential_id r || for_request c.request_id c.rail r) t
    then t
    else (t ++ c ∷ [])

-- `_persist_sync`: the row of the request and the rail, which none may have if the id is taken.
unfoldable pub persist_sync : ℕ → String → Persist → Table → Option CredentialRecord × Table
persist_sync now i p t =
    let t' = insert_or_ignore (new_record now i p) t in
    (find? (for_request p.request_id p.rail) t', t')

-- `_get_sync`
unfoldable pub get_sync : String → Table → Option CredentialRecord
get_sync i t = find? (has_credential_id i) t

-- `_list_by_state_sync`
unfoldable pub list_by_state_sync : CredentialState → Table → List CredentialRecord
list_by_state_sync s t = filter (λ (c : CredentialRecord). state_eq c.state s) t

-- COALESCE(redeemed_at, ?)
abbrev pub redeemed_time : ℕ → CredentialState → Option ℕ → Option ℕ
redeemed_time now s (some at) = some at
redeemed_time now redeemed none = some now
redeemed_time now _ none = none

-- The SET of the UPDATE.
abbrev pub moved :
    ℕ → CredentialState → Option ManualHoldReason → CredentialRecord → CredentialRecord
moved now to_state reason c = record c {
  state = to_state;
  manual_hold_reason = reason;
  last_transition_at = now;
  redeemed_at = redeemed_time now to_state c.redeemed_at;
}

-- A hold needs a reason.
abbrev pub lacks_reason : CredentialState → Option ManualHoldReason → Bool
lacks_reason manual_hold none = true
lacks_reason _ _ = false

-- `_transition_sync`
unfoldable pub transition_sync :
    ℕ → String → CredentialState → Option ManualHoldReason → Table → Stored × Table
transition_sync now i to_state reason t = elim (find? (has_credential_id i) t) [
  | none ↦ (raised credential_not_found, t)
  | some c ↦
      if valid_transition c.state to_state
      then (if lacks_reason to_state reason then (raised invalid_transition, t) else (
        stored (moved now to_state reason c),
        map (λ r. if has_credential_id i r then moved now to_state reason r else r) t,
      ))
      else (raised invalid_transition, t)
]
