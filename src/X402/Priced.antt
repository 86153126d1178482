-- ===== src/X402/Priced.antt =====
-- What a payment over x402 rests on.
use routeweiler_python_sdk.Prelude.{
  ℕ, ◌<◌, ◌≡◌, refl, inl, inr, true, Option, some, List, [], ◌∷◌, leb, Among, and_true, filter,
  Bool, find?, find?-some, find?-Among, arith, Bool-cases, Option-cases,
}
use routeweiler_python_sdk.Prelude.Int.{ℤ}
use routeweiler_python_sdk.Texts.{Text, codes, text_eq, eq_of_text_eq}
use routeweiler_python_sdk.Mpp.Envelope.{
  ok, Ensures, >>=-Ensures, ensured, ok_eq, Converted, value, bad, too_large, get_member,
}
use routeweiler_python_sdk.Mpp.Fields.{int_of_text, plain_int}
use routeweiler_python_sdk.X402.{
  canonical_network, resolve_asset, Requirements, Decoder, to_caip19, EvmFundingSource, can_pay,
  find_match, exact_accepts, X402Challenge, decoded, first_exact, nonce_of, expiry_of, not_past,
  parse, match_funding, signed, pay,
}

-- A challenge with the price of the first exact entry of its list.
pub record IsPriced (now : ℕ) (c : X402Challenge) : Type 0 where
  pub chosen : Requirements
  pub others : List Requirements
  pub first : exact_accepts c.accepts ≡ chosen ∷ others
  pub price : int_of_text chosen.amount ≡ value c.amount
  pub currency : c.currency ≡ to_caip19 chosen.network chosen.asset
  pub payee : c.payee ≡ chosen.pay_to
  pub ahead : now < c.expires_at

-- A header that pays for a challenge, with the entry and the source that allowed it.
pub record Backed (sign : List Requirements → Option Text) (funding : List EvmFundingSource)
    (now : ℕ) (c : X402Challenge) (header : Text) : Type 0 where
  pub priced : IsPriced now c
  pub entry : Requirements
  pub offered : Among entry c.accepts
  pub exact : entry.scheme ≡ codes "exact"
  pub source : EvmFundingSource
  pub listed : Among source funding
  pub same_network : canonical_network entry.network ≡ canonical_network source.network
  pub same_asset :
      resolve_asset (canonical_network entry.network) entry.asset
      ≡ resolve_asset source.network source.asset
  pub signs : sign c.accepts ≡ some header

first_exact_lem :
    (d : Decoder) (prs : List Requirements) {pr : Requirements}
    → first_exact d prs ≡ ok pr
    → (others : List Requirements) × (prs ≡ pr ∷ others)
first_exact_lem d [] h = cc
first_exact_lem d (x ∷ xs) h = (xs, rw (ok_eq h) refl)

not_past_lem : (d : Decoder) (now at : ℕ) {t : ℕ} → not_past d now at ≡ ok t → now < t
not_past_lem d now at h = elim (Bool-cases (leb at now)) [
  | inl past ↦ cc (rw past at h)
  | inr ahead ↦ rw (← ok_eq (rw ahead at h)) (ground (arith, ahead))
]

plain_int_lem : (v : Converted) {n : ℤ} → plain_int v ≡ ok n → v ≡ value n
plain_int_lem (value m) h = rw (ok_eq h) refl
plain_int_lem bad h = cc
plain_int_lem too_large h = cc

parse-Ensures :
    (d : Decoder) (started now : ℕ) (header : Text)
    → Ensures (parse d started now header) (IsPriced now)
unfolding parse
parse-Ensures d started now header = >>=-Ensures (decoded d header) _ (IsPriced now) λ accepts _.
    >>=-Ensures (first_exact d (exact_accepts accepts)) _ (IsPriced now) λ chosen first.
      >>=-Ensures (expiry_of d started chosen.extra chosen.max_timeout_seconds) _ (IsPriced now)
        λ due _. >>=-Ensures (not_past d now due) _ (IsPriced now) λ expires_at ahead.
          >>=-Ensures (plain_int (int_of_text chosen.amount)) _ (IsPriced now) λ amount price.
            >>=-Ensures (nonce_of d (get_member (codes "nonce") chosen.extra)) _ (IsPriced now)
              λ nonce _.
                let (others, same) = first_exact_lem d (exact_accepts accepts) first in
                record {
                  chosen = chosen;
                  others = others;
                  first = same;
                  price = plain_int_lem (int_of_text chosen.amount) price;
                  currency = refl;
                  payee = refl;
                  ahead = not_past_lem d now due ahead;
                }

Among-filter :
    (p : Requirements → Bool) (xs : List Requirements) {x : Requirements}
    → Among x (filter p xs)
    → Among x xs × (p x ≡ true)
Among-filter p [] h = elim h [ ]
Among-filter p (y ∷ xs) {x} h = elim (Bool-cases (p y)) [
  | inl kept ↦ elim (rw kept at h) [
    | inl same ↦ (inl same, rw same at kept)
    | inr later ↦ let (listed, fits) = Among-filter p xs later in (inr listed, fits)
  ]
  | inr dropped ↦ let (listed, fits) = Among-filter p xs (rw dropped at h) in (inr listed, fits)
]

can_pay-same :
    (pr : Requirements) (fs : EvmFundingSource)
    → can_pay pr fs ≡ true
    → (canonical_network pr.network ≡ canonical_network fs.network)
      × (resolve_asset (canonical_network pr.network) pr.asset ≡ resolve_asset fs.network fs.asset)
unfolding can_pay
can_pay-same pr fs h =
    let network = canonical_network pr.network in
    let (one, two) =
      and_true (text_eq network (canonical_network fs.network))
        (text_eq (resolve_asset network pr.asset) (resolve_asset fs.network fs.asset)) h in
    (
      eq_of_text_eq network (canonical_network fs.network) one,
      eq_of_text_eq (resolve_asset network pr.asset) (resolve_asset fs.network fs.asset) two,
    )

find_match-found :
    (accepts : List Requirements) (funding : List EvmFundingSource) {fs : EvmFundingSource}
    → find_match accepts funding ≡ some fs
    → (entry : Requirements) × Among entry accepts × Among fs funding × (can_pay entry fs ≡ true)
unfolding find_match
find_match-found [] funding h = cc
find_match-found (pr ∷ accepts) funding {fs} h = elim (Option-cases (find? (can_pay pr) funding)) [
  | inl missing ↦
      let (entry, later, rest, fits) =
        find_match-found accepts funding (rw (missing, find_match) at h) in
      (entry, inr later, rest, fits)
  | inr (source, found) ↦
      let same : some source ≡ some fs = rw (found, find_match) at h in
      let here : find? (can_pay pr) funding ≡ some fs = cc in
      (pr, inl refl, find?-Among (can_pay pr) funding here, find?-some (can_pay pr) funding here)
]

signed_eq : {a b : Text} → signed a ≡ signed b → a ≡ b
signed_eq h = cc

pay-parts :
    (sign : List Requirements → Option Text) (funding : List EvmFundingSource) (c : X402Challenge)
    {header : Text}
    → pay sign funding c ≡ signed header
    → ((fs : EvmFundingSource) × (match_funding c funding ≡ some fs))
      × (sign c.accepts ≡ some header)
unfolding pay
pay-parts sign funding c h = elim (Option-cases (match_funding c funding)) [
  | inl missing ↦ cc (rw (missing, pay) at h)
  | inr (source, found) ↦ elim (Option-cases (sign c.accepts)) [
    | inl unsigned ↦ cc (rw unsigned at (rw (found, pay) at h))
    | inr (value', made) ↦
        let same = signed_eq (rw made at (rw (found, pay) at h)) in
        ((source, found), rw (made, same) refl)
  ]
]

-- A header is signed only for the list of all entries of the challenge, and only if a listed source
-- has the network and the asset of some exact entry of it. The price, currency and payee of the challenge are those of its
-- first exact entry, and the challenge had not expired when it was parsed.
pub pay-Backed :
    (d : Decoder) (sign : List Requirements → Option Text) (funding : List EvmFundingSource)
    (started now : ℕ) (raw_header : Text) {c : X402Challenge} {header : Text}
    → parse d started now raw_header ≡ ok c
    → pay sign funding c ≡ signed header
    → Backed sign funding now c header
pay-Backed d sign funding started now raw_header {c} {header} parsed paid =
    let ((source, matched), signs) = pay-parts sign funding c paid in
    let found : find_match (exact_accepts c.accepts) funding ≡ some source =
      unfold match_funding in matched in
    let (entry, offered, listed, payable) =
      find_match-found (exact_accepts c.accepts) funding found in
    let here =
      Among-filter (λ pr. text_eq pr.scheme (codes "exact")) c.accepts {x = entry}
        (unfold exact_accepts in offered) in
    let fits = can_pay-same entry source payable in
    record {
      priced =
          ensured (parse d started now raw_header) (IsPriced now)
            (parse-Ensures d started now raw_header) parsed;
      entry = entry;
      offered = here.0;
      exact = eq_of_text_eq entry.scheme (codes "exact") here.1;
      source = source;
      listed = listed;
      same_network = fits.0;
      same_asset = fits.1;
      signs = signs;
    }
