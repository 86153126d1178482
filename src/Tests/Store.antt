-- ===== src/Tests/Store.antt =====
-- The credential store on one credential: src/routeweiler/credentials/store.py.
use routeweiler_python_sdk.Prelude.{◌≡◌, refl, some, none, [], ◌∷◌, find?}
use routeweiler_python_sdk.Normalized.{l402}
use routeweiler_python_sdk.Credentials.{
  CredentialRecord, Persist, redeemed, recovering, Table, has_credential_id, new_record, moved,
  persist_sync, transition_sync,
}
use routeweiler_python_sdk.Credentials.Lifecycle.{
  Calls, start, and_then, persist, transition, terminal_kept,
}

abbrev credential : Persist
credential = record {
  request_id = "request";
  rail = l402;
  challenge_url = "https://api.example.com/data";
  payload = "macaroon and preimage";
  expires_at = some 900;
}

abbrev redeemed_record : CredentialRecord
redeemed_record = moved 9 redeemed none (new_record 5 "credential" credential)

abbrev table : Table
table = redeemed_record ∷ []

-- A recovery is refused and a replay finds the row.
late_sequence :
    Calls table
      (persist_sync 12 "other" credential
        (transition_sync 11 "credential" recovering none table).1).1
late_sequence =
    and_then (and_then start (transition 11 "credential" recovering none table))
      (persist 12 "other" credential (transition_sync 11 "credential" recovering none table).1)

terminal_kept_example :
    find?
      (has_credential_id "credential")
      (persist_sync 12 "other" credential
        (transition_sync 11 "credential" recovering none table).1).1
    ≡ some redeemed_record
terminal_kept_example = terminal_kept "credential" redeemed_record refl refl late_sequence
