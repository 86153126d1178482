-- ===== src/Budgets/Fmv/Capture.antt =====
-- src/routeweiler/budgets/fmv.py: the rates that a new or refreshed envelope gets.
use routeweiler_python_sdk.Prelude.{Option, none, some, List, [], ◌∷◌, if◌then◌else◌}
use routeweiler_python_sdk.Texts.{Text, text_eq, get, put}
use routeweiler_python_sdk.Budgets.Schema.{Currency}
use routeweiler_python_sdk.Budgets.Fmv.{Decimals, Rates, iso, rate_key, ecb_offline_fallback}

module _ (dec : Decimals) where
  open dec use {Decimal, literal}

  -- A live rate, or the offline one.
  abbrev pub live_or : Option Decimal → Decimal → Decimal
  live_or none offline = offline
  live_or (some rate) offline = rate

  -- The pairs of the offline table whose destination is the currency of the envelope.
  unfoldable pub cross_pairs :
      Text → Rates dec → List ((Text × Text) × Decimal) → Rates dec → Rates dec
  unfolding put get text_eq
  cross_pairs env_cur live [] rates = rates
  cross_pairs env_cur live (((src, dst), offline) ∷ rest) rates =
      let rate = live_or (get (rate_key src dst) live) offline in
      let next = if text_eq dst env_cur then put (rate_key src dst) rate rates else rates in
      cross_pairs env_cur live rest next

  unfoldable pub put_all : Rates dec → Rates dec → Rates dec
  unfolding put
  put_all [] rates = rates
  put_all ((key, rate) ∷ rest) rates = put_all rest (put key rate rates)

  abbrev pub or_empty : Option (Rates dec) → Rates dec
  or_empty none = []
  or_empty (some rates) = rates

  -- `capture_fmv_snapshot`, of the sats rates and the live cross rates, without the quality flags.
  unfoldable pub capture_fmv_snapshot :
      Currency → Option (Rates dec) → Option (Rates dec) → Rates dec
  unfolding cross_pairs put_all ecb_offline_fallback
  capture_fmv_snapshot cur sats_rates cross_rates =
      let identity = put (rate_key (iso cur) (iso cur)) (literal 1 0) [] in
      put_all (or_empty sats_rates)
        (cross_pairs (iso cur) (or_empty cross_rates) (ecb_offline_fallback dec) identity)
