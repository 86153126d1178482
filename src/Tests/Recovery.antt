-- ===== src/Tests/Recovery.antt =====
-- A recovery of one credential: src/routeweiler/credentials/recovery.py and manifest_strategy.py.
use routeweiler_python_sdk.Prelude.{ℕ, ◌+◌, ◌≡◌, refl, true, Option, none, some, [], ◌∷◌, ◌++◌, leb}
use routeweiler_python_sdk.Normalized.{l402}
use routeweiler_python_sdk.Texts.{Text, codes, text_eq, starts_with}
use routeweiler_python_sdk.Credentials.{persisted, CredentialRecord, Table, get_sync}
use routeweiler_python_sdk.Credentials.Recovery.{Times, Strategy, attempt_recovery}
use routeweiler_python_sdk.Credentials.Ends.{Ended, attempt_recovery_ends}
use routeweiler_python_sdk.Credentials.Manifests.{
  ServiceShapeStep, ServiceShape, Lib, path, macaroon, build_authorization_header, recover,
}
use routeweiler_python_sdk.Credentials.Attempts.{Bounded, KeepsSlash, recover_bounds}

abbrev credential : CredentialRecord
credential = record {
  credential_id = "credential";
  request_id = "request";
  rail = l402;
  challenge_url = "https://api.example.com/orders/7";
  payload = "{}";
  state = persisted;
  manual_hold_reason = none;
  persisted_at = 5;
  redeemed_at = none;
  last_transition_at = 5;
  expires_at = some 900;
}

abbrev table : Table
table = credential ∷ []

abbrev times : Times
times = record { checked = 10; entered = 11; ended = 12 }

-- A strategy that finds a response.
abbrev lucky : Strategy ℕ
lucky c last_response = some (record { succeeded = true; response = some 200; reason = none })

found : get_sync "credential" table ≡ some credential
unfolding get_sync
found = refl

attempt_recovery_ends_example :
    Ended "credential" (attempt_recovery lucky times "credential" (some 404) table)
    × ((strategy' : Strategy ℕ) (times' : Times) (last_response' : Option ℕ)
        → ((attempt_recovery strategy' times' "credential" last_response'
              (attempt_recovery lucky times "credential" (some 404) table).1).0.succeeded
            ≡ (attempt_recovery lucky times "credential" (some 404) table).0.succeeded)
          × ((attempt_recovery strategy' times' "credential" last_response'
                (attempt_recovery lucky times "credential" (some 404) table).1).1
              ≡ (attempt_recovery lucky times "credential" (some 404) table).1))
attempt_recovery_ends_example =
    attempt_recovery_ends lucky times "credential" (some 404) table credential found

-- Only the second request is answered by a success.
abbrev lib : Lib ℕ
lib = record {
  netloc = λ url. codes "api.example.com";
  url_path = λ url. codes "/orders/7";
  scheme = λ url. codes "https";
  fnmatchcase = λ name pattern. starts_with pattern name;
  field = λ key payload. some key;
  search = λ regex text. some (codes "7");
  format_order_id = λ template order_id. some (template ++ order_id);
  deserialize = λ macaroon_b64. some (codes "order_id = 9" ∷ []);
  request = λ n r. some (200 + n);
  is_success = λ resp. leb 201 resp;
}

abbrev step : ServiceShapeStep
step = record {
  challenge_path = codes "/orders";
  fulfil_path_template = codes "/fulfil/";
  id_extractor = path (codes "orders/(.*)");
  method = codes "GET";
}

abbrev by_caveat : ServiceShapeStep
by_caveat = record step { id_extractor = macaroon (codes "order_id") }

abbrev shape : ServiceShape
shape = record {
  name = codes "orders";
  domain_matches = codes "api";
  flow = step ∷ by_caveat ∷ step ∷ [];
}

abbrev authorization : Text
authorization = codes "L402 macaroon:preimage_hex"

header : build_authorization_header lib credential ≡ some authorization
unfolding build_authorization_header
header = refl

-- The order id of the second step comes from the macaroon.
second_url : recover lib 3 (shape ∷ []) credential ≡ (
  record { succeeded = true; response = some 201; reason = none },
  record {
    method = codes "GET";
    url = codes "https://api.example.com/fulfil/7";
    authorization = authorization;
  }
      ∷ record {
        method = codes "GET";
        url = codes "https://api.example.com/fulfil/9";
        authorization = authorization;
      }
      ∷ [],
)
unfolding recover starts_with text_eq
second_url = refl

keeps : KeepsSlash lib
keeps template order_id out (p, rooted) h =
    let made : template ++ order_id ≡ out = cc in (p ++ order_id, rw (← made, rooted) refl)

recover_bounds_example :
    Bounded lib
      (codes "https://api.example.com")
      authorization
      3
      (recover lib 3 (shape ∷ []) credential)
recover_bounds_example =
    recover_bounds lib 3 (shape ∷ []) credential authorization keeps
      (((codes "fulfil/", refl), ((codes "fulfil/", refl), ((codes "fulfil/", refl), tt))), tt)
      header
