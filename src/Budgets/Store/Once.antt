-- ===== src/Budgets/Store/Once.antt =====
-- `create_envelope_if_absent` creates an envelope once.
use routeweiler_python_sdk.Prelude.{
  ℕ, ◌≡◌, ◌⊎◌, refl, String, Bool, true, false, arith, inl, inr, Bool-cases, Option-cases,
}
use routeweiler_python_sdk.Budgets.Errors.{Action, pure, ◌>>◌, Error, Result, ok, err}
use routeweiler_python_sdk.Budgets.Receipts.{Ed25519}
use routeweiler_python_sdk.Budgets.Keystore.{file_at}
use routeweiler_python_sdk.Budgets.Fmv.{Decimals}
use routeweiler_python_sdk.Budgets.Store.{
  BudgetEnvelope, Store, Providers, envelope_exists_sync, sats_rates_of, provider_cross,
  create_envelope, create_envelope_if_absent,
}
use routeweiler_python_sdk.Budgets.Store.Created.{
  create_present, create_absent, create_envelope_lem, create_envelope-duplicate,
}

Result-cases : {A : Type 0} (r : Result A) → ((a : A) × (r ≡ ok a)) ⊎ ((e : Error) × (r ≡ err e))
Result-cases (ok a) = inl (a, refl)
Result-cases (err e) = inr (e, refl)

>>-true :
    {S : Type 0} (m : Action S Unit) (s : S) {b : Bool} {t : S}
    → (m >> pure true) s ≡ (ok b, t)
    → m s ≡ (ok tt, t)
>>-true m s h = elim (Result-cases (m s).0) [
  | inl (a, e) ↦ ground (arith, h, e)
  | inr (x, e) ↦ ground (arith, h, e)
]

module _ (ed : Ed25519) (dec : Decimals) where
  open ed use {PrivateKey}

  module _ (p : Providers ed dec) (now : ℕ) (generated : PrivateKey) (pub_key : String)
      (spec : BudgetEnvelope) where
    -- An envelope that `create_envelope` created exists.
    created-exists :
        (s : Store ed dec) {s' : Store ed dec}
        → create_envelope ed dec p now generated pub_key spec s ≡ (ok tt, s')
        → envelope_exists_sync ed dec spec.id s' ≡ true
    unfolding create_envelope
    created-exists s h = elim (Option-cases (file_at spec.id s.files)) [
      | inr (f, there) ↦ ground (arith, h, create_present spec.id generated s.files there)
      | inl no_file ↦ elim (Result-cases (sats_rates_of ed dec p spec)) [
        | inr (e, failing) ↦
            ground (arith, h, create_absent spec.id generated s.files no_file, failing)
        | inl (sats, sats_given) ↦
            elim (Result-cases (provider_cross ed dec spec.cap_currency p.ecb)) [
              | inr (e, failing) ↦
                  ground
                    (arith, h, create_absent spec.id generated s.files no_file, sats_given, failing)
              | inl (cross, cross_given) ↦
                  elim (Bool-cases (envelope_exists_sync ed dec spec.id s)) [
                    | inl row ↦ cc (
                      h,
                      create_envelope-duplicate ed dec p now generated pub_key spec s no_file row
                          sats_given cross_given,
                    )
                    | inr no_row ↦
                        let (t, ran, _, _, _, exists) =
                          create_envelope_lem ed dec p now generated pub_key spec s no_file no_row
                            sats_given cross_given in
                        cc (h, ran, exists)
                  ]
            ]
      ]
    ]

    if_absent-exists :
        (s : Store ed dec) {b : Bool} {s' : Store ed dec}
        → create_envelope_if_absent ed dec p now generated pub_key spec s ≡ (ok b, s')
        → envelope_exists_sync ed dec spec.id s' ≡ true
    unfolding create_envelope_if_absent
    if_absent-exists s {b} {s'} h = elim (Bool-cases (envelope_exists_sync ed dec spec.id s)) [
      | inl row ↦ let same : s ≡ s' = ground (arith, h, row) in rw (← same) row
      | inr no_row ↦
          created-exists s
            (>>-true (create_envelope ed dec p now generated pub_key spec) s (rw no_row at h))
    ]

  -- Once `create_envelope_if_absent` has returned, with true or with false, the envelope exists, and every
  -- later call for the same id returns false and changes nothing, with any other arguments.
  pub create_envelope_if_absent-once :
      (p : Providers ed dec) (now : ℕ) (generated : PrivateKey) (pub_key : String)
      (spec : BudgetEnvelope) (s : Store ed dec) {b : Bool} {s' : Store ed dec}
      → create_envelope_if_absent ed dec p now generated pub_key spec s ≡ (ok b, s')
      → (envelope_exists_sync ed dec spec.id s' ≡ true)
        × ((p' : Providers ed dec) (now' : ℕ) (key' : PrivateKey) (pub_key' : String)
              (spec' : BudgetEnvelope)
            → spec'.id ≡ spec.id
            → create_envelope_if_absent ed dec p' now' key' pub_key' spec' s' ≡ (ok false, s'))
  unfolding create_envelope_if_absent
  create_envelope_if_absent-once p now generated pub_key spec s h =
      let exists = if_absent-exists p now generated pub_key spec s h in
      (exists, λ p' now' key' pub_key' spec' same. rw same (rw exists refl))
