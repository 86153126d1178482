-- ===== src/Normalized.antt =====
-- The closed vocabularies of src/routeweiler/normalized.py.
use routeweiler_python_sdk.Prelude.Int.{ℤ}
use routeweiler_python_sdk.Prelude.{ℕ, String, List, ◌≡◌, Bool, true, false, arith, ◌↔◌}

-- `Rail`
pub data Rail : Type 0 where
  x402 l402 mpp_tempo mpp_spt : Rail

-- `==` on rails; Python compares the literals.
abbrev pub rail_eq : Rail → Rail → Bool
rail_eq x402 x402 = true
rail_eq l402 l402 = true
rail_eq mpp_tempo mpp_tempo = true
rail_eq mpp_spt mpp_spt = true
rail_eq _ _ = false

pub rail_eq_iff : (a b : Rail) → (rail_eq a b ≡ true) ↔ (a ≡ b)
rail_eq_iff a b = ground arith

pub rail_eq_refl : (a : Rail) → rail_eq a a ≡ true
rail_eq_refl a = ground arith

-- `ProofType`
pub data ProofType : Type 0 where
  txid preimage spt_id : ProofType

-- `Scheme`: one literal only.
pub data Scheme : Type 0 where
  exact : Scheme

-- `Price`
pub record Price : Type 0 where
  pub amount : ℤ
  pub currency : String
  pub human_amount : String

-- `X402PaymentRequirements`, without its optional extension data.
pub record PaymentRequirements : Type 0 where
  pub network : String
  pub amount : String
  pub pay_to : String
  pub asset : String

-- `RailRaw`: what each adapter keeps of the wire data, without the dictionaries.
pub data RailRaw : Type 0 where
  x402_raw : List PaymentRequirements → RailRaw
  l402_raw : String → String → RailRaw
  mpp_tempo_raw mpp_spt_raw : String → RailRaw

-- `NormalizedChallenge`; of the resource its method and its URL.
pub record NormalizedChallenge : Type 0 where
  pub rail : Rail
  pub method : String
  pub url : String
  pub price : Price
  pub payee : String
  pub scheme : Scheme
  pub nonce : String
  pub expires_at : ℕ
  pub raw : RailRaw
