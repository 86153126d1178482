-- ===== src/Mpp/Expiry.antt =====
-- The expiry of a challenge of src/routeweiler/rails/_mpp_http.py.
use routeweiler_python_sdk.Prelude.{ℕ, ◌<◌, ◌≡◌, inl, inr, List, leb, arith, Bool-cases}
use routeweiler_python_sdk.Texts.{Text}
use routeweiler_python_sdk.Mpp.Envelope.{
  ok, ok_eq, Moment, aware, naive, invalid, Lib, not_past, compute_mpp_expiry,
}

not_past_lem : (lib : Lib) (now : ℕ) (m : Moment) {at : ℕ} → not_past lib now m ≡ ok at → now < at
not_past_lem lib now invalid h = cc
not_past_lem lib now naive h = cc
not_past_lem lib now (aware t) {at} h = elim (Bool-cases (leb t now)) [
  | inl past ↦ cc (rw past at h)
  | inr ahead ↦ rw (← ok_eq (rw ahead at h)) (ground (arith, ahead))
]

-- A challenge is never accepted at its expiry or later, nor where its expiry is no date.
pub lt-compute_mpp_expiry :
    (lib : Lib) (started now : ℕ) (params : List (Text × Text)) {at : ℕ}
    → compute_mpp_expiry lib started now params ≡ ok at
    → now < at
unfolding compute_mpp_expiry
lt-compute_mpp_expiry lib started now params h = not_past_lem lib now _ h
