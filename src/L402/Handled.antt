-- ===== src/L402/Handled.antt =====
-- src/routeweiler/rails/l402.py: the detector and the settlement of the adapter.
use routeweiler_python_sdk.Prelude.{ℕ, Bool, Option, none, some, ◌&&◌, ◌==◌}
use routeweiler_python_sdk.Texts.{Text, codes, lower, strip}
use routeweiler_python_sdk.L402.{first_word, is_accepted}
use routeweiler_python_sdk.L402.Payment.{Credential}

-- `can_handle`, of the status and the header, which is empty where there is none.
unfoldable pub can_handle : ℕ → Text → Bool
unfolding lower strip first_word is_accepted
can_handle status_code www_auth =
    (status_code == 402) && is_accepted (lower (first_word (strip www_auth)).0)

-- The fields of `SettlementInfo` that are not None.
pub record SettlementInfo : Type 0 where
  pub success : Bool
  pub amount_paid : Option ℕ
  pub facilitator : Text

-- `confirm`, of the credential of the payment and the success of the response.
unfoldable pub confirm : Option Credential → Bool → SettlementInfo
confirm credential is_success = record {
  success = is_success;
  amount_paid = elim credential [ none ↦ none | some c ↦ some c.amount_paid_sats ];
  facilitator = codes "lightning";
}
