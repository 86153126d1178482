-- ===== src/X402.antt =====
-- src/routeweiler/rails/x402.py: the adapter for x402. The base64 and JSON of the header, pydantic, the
-- date of a number and the x402 SDK are libraries; of the funding sources there are those for EVM, as
-- the others are skipped. Times are microseconds.
pub mod Priced
pub mod Settled
use routeweiler_python_sdk.Prelude.{
  ℕ, ◌+◌, ◌*◌, Bool, true, false, Option, none, some, List, [], ◌∷◌, ◌++◌, ◌&&◌, leb, ◌==◌, find?,
  filter, if◌then◌else◌,
}
use routeweiler_python_sdk.Prelude.Int.{ℤ, pos, negsuc}
use routeweiler_python_sdk.Texts.{Text, codes, text_eq, starts_with, drop_prefix, lower}
use routeweiler_python_sdk.Assets.{get_pair, canonical_addresses}
use routeweiler_python_sdk.Mpp.Jcs.{
  Json, Items, Members, null, bool, int, float, str, arr, dict, nil, cons, end, member,
}
use routeweiler_python_sdk.Mpp.Envelope.{
  challenge_parse, challenge_expired, uncaught, Result, ok, err, ◌>>=◌, Converted, value, bad,
  too_large, Lib, is_empty, get_member,
}
use routeweiler_python_sdk.Mpp.Fields.{int_of, int_of_text, truthy, plain_int}

-- `X402PaymentRequirements`
pub record Requirements : Type 0 where
  pub scheme : Text
  pub network : Text
  pub amount : Text
  pub asset : Text
  pub pay_to : Text
  pub max_timeout_seconds : ℕ
  pub extra : Members

-- What `parse` calls, beside the conversions of JSON; `none` is an exception.
pub record Decoder : Type 0 where
  pub json : Lib
  pub payload : Text → Option Json
  pub is_two : Text → Bool
  pub validate : Json → Option Requirements
  pub fromtimestamp : ℤ → Option ℕ

-- `_CAIP2_TO_SHORT`
unfoldable pub caip2_to_short : ℤ → Option Text
caip2_to_short (negsuc n) = none
caip2_to_short (pos n) =
    if n == 8453
    then some (codes "base")
    else if n == 84532
    then some (codes "base-sepolia")
    else if n == 137
    then some (codes "polygon")
    else if n == 42161
    then some (codes "arbitrum")
    else if n == 480
    then some (codes "world")
    else if n == 1
    then some (codes "ethereum")
    else if n == 42430
    then some (codes "tempo")
    else if n == 42431
    then some (codes "tempo-moderato")
    else none

abbrev pub short_or : Text → Option Text → Text
short_or network none = network
short_or network (some short) = short

abbrev pub short_of : Text → Converted → Text
short_of network (value chain_id) = short_or network (caip2_to_short chain_id)
short_of network _ = network

-- `_canonical_network`
unfoldable pub canonical_network : Text → Text
unfolding starts_with drop_prefix int_of_text caip2_to_short
canonical_network network =
    if starts_with (codes "eip155:") network
    then short_of network (int_of_text (drop_prefix (codes "eip155:") network))
    else network

-- `_resolve_asset`
unfoldable pub resolve_asset : Text → Text → Text
unfolding lower starts_with canonical_network get_pair canonical_addresses
resolve_asset network asset =
    let a = lower asset in
    if starts_with (codes "0x") a
    then a
    else short_or a (get_pair (canonical_network network) a canonical_addresses)

-- `_to_caip19`
unfoldable pub to_caip19 : Text → Text → Text
unfolding resolve_asset
to_caip19 network asset = network ++ codes "/erc20:" ++ resolve_asset network asset

-- `EvmFundingSource`
pub record EvmFundingSource : Type 0 where
  pub network : Text
  pub asset : Text

-- Whether a source can pay an entry.
unfoldable pub can_pay : Requirements → EvmFundingSource → Bool
unfolding text_eq canonical_network resolve_asset
can_pay pr fs =
    let pr_network = canonical_network pr.network in
    text_eq pr_network (canonical_network fs.network)
    && text_eq (resolve_asset pr_network pr.asset) (resolve_asset fs.network fs.asset)

abbrev pub or_else : Option EvmFundingSource → Option EvmFundingSource → Option EvmFundingSource
or_else (some fs) other = some fs
or_else none other = other

-- `_find_match`
unfoldable pub find_match : List Requirements → List EvmFundingSource → Option EvmFundingSource
unfolding can_pay
find_match [] funding = none
find_match (pr ∷ accepts) funding =
    or_else (find? (can_pay pr) funding) (find_match accepts funding)

-- `[pr for pr in accepts if pr.scheme == "exact"]`
unfoldable pub exact_accepts : List Requirements → List Requirements
unfolding text_eq
exact_accepts accepts = filter (λ pr. text_eq pr.scheme (codes "exact")) accepts

-- What `parse` keeps of a challenge.
pub record X402Challenge : Type 0 where
  pub amount : ℤ
  pub currency : Text
  pub payee : Text
  pub nonce : Text
  pub expires_at : ℕ
  pub accepts : List Requirements

abbrev pub cons_ok : Option Requirements → Result (List Requirements) → Result (List Requirements)
cons_ok (some pr) (ok prs) = ok (pr ∷ prs)
cons_ok _ _ = err challenge_parse

module _ (d : Decoder) where
  -- `x402_version != 2`
  abbrev pub is_version : Option Json → Bool
  is_version (some (int (pos n))) = n == 2
  is_version (some (float s)) = d.is_two s
  is_version _ = false

  unfoldable pub validated : Items → Result (List Requirements)
  validated nil = ok []
  validated (cons x xs) = cons_ok (d.validate x) (validated xs)

  -- `accepts`, a list that is not empty.
  unfoldable pub accepts_of : Option Json → Result (List Requirements)
  unfolding validated
  accepts_of (some (arr nil)) = err challenge_parse
  accepts_of (some (arr (cons x xs))) = validated (cons x xs)
  accepts_of _ = err challenge_parse

  -- The payload of the header, whose version and entries are checked.
  unfoldable pub decoded : Text → Result (List Requirements)
  unfolding get_member accepts_of
  decoded raw_header = elim (d.payload raw_header) [
    | none ↦ err challenge_parse
    | some (dict data') ↦
        if is_version (get_member (codes "x402Version") data')
        then accepts_of (get_member (codes "accepts") data')
        else err challenge_parse
    | some _ ↦ err uncaught
  ]

  abbrev pub first_exact : List Requirements → Result Requirements
  first_exact [] = err challenge_parse
  first_exact (pr ∷ prs) = ok pr

  -- A nonce that is no text fails when the challenge is built.
  abbrev pub nonce_of : Option Json → Result Text
  nonce_of none = ok []
  nonce_of (some (str s)) = ok s
  nonce_of (some _) = err uncaught

  abbrev pub dated : Converted → Result ℕ
  dated (value n) = elim (d.fromtimestamp n) [ none ↦ err uncaught | some at ↦ ok at ]
  dated _ = err uncaught

  -- The expiry of the chosen entry: `validBefore`, or the time-out from now on.
  unfoldable pub expiry_of : ℕ → Members → ℕ → Result ℕ
  unfolding get_member truthy int_of
  expiry_of started extra max_timeout_seconds =
      let timeout = ok (started + max_timeout_seconds * 1_000_000) in
      elim (get_member (codes "validBefore") extra) [
        | none ↦ timeout
        | some valid_before ↦
            if truthy d.json valid_before then dated (int_of d.json valid_before) else timeout
      ]

  abbrev pub not_past : ℕ → ℕ → Result ℕ
  not_past now at = if leb at now then err challenge_expired else ok at

  -- `parse`, of the header and the times at which the clock is read.
  unfoldable pub parse : ℕ → ℕ → Text → Result X402Challenge
  unfolding decoded exact_accepts expiry_of get_member int_of_text to_caip19
  parse started now raw_header = do
    accepts ← decoded raw_header
    chosen ← first_exact (exact_accepts accepts)
    due ← expiry_of started chosen.extra chosen.max_timeout_seconds
    expires_at ← not_past now due
    amount ← plain_int (int_of_text chosen.amount)
    nonce ← nonce_of (get_member (codes "nonce") chosen.extra)
    ok (record {
      amount = amount;
      currency = to_caip19 chosen.network chosen.asset;
      payee = chosen.pay_to;
      nonce = nonce;
      expires_at = expires_at;
      accepts = accepts;
    })

-- `match_funding`
unfoldable pub match_funding : X402Challenge → List EvmFundingSource → Option EvmFundingSource
unfolding exact_accepts find_match
match_funding c funding = find_match (exact_accepts c.accepts) funding

pub data Payment : Type 0 where
  signed : Text → Payment
  no_funding_for_rail signing : Payment

-- `pay`, with what the SDK signs for a list of entries.
unfoldable pub pay :
    (List Requirements → Option Text) → List EvmFundingSource → X402Challenge → Payment
unfolding match_funding
pay sign funding c = elim (match_funding c funding) [
  | none ↦ no_funding_for_rail
  | some source ↦ elim (sign c.accepts) [ none ↦ signing | some header_value ↦ signed header_value ]
]
