-- ===== src/Budgets/Store/Created.antt =====
-- What the creation of an envelope leaves.
use Prim.Native.Nat.{bit_and}
use routeweiler_python_sdk.Prelude.{
  ℕ, ◌==◌, ◌≡◌, refl, ap, String, Bool, true, false, Option, none, some, List, [], ◌∷◌, ◌++◌, ◌&&◌,
  not, any, str_eq, eq_refl, arith, inl, inr, Bool-cases, if◌then◌else◌,
}
use routeweiler_python_sdk.Budgets.Errors.{
  Error, ok, err, integrity, keystore_already_exists, keystore_error,
}
use routeweiler_python_sdk.Budgets.Receipts.{Ed25519}
use routeweiler_python_sdk.Budgets.Keystore.{KeyFile, Files, file_at, create, delete, load}
use routeweiler_python_sdk.Budgets.Draw.{has_envelope_id}
use routeweiler_python_sdk.Budgets.Fmv.{Decimals}
use routeweiler_python_sdk.Budgets.Fmv as Fmv
use routeweiler_python_sdk.Budgets.Fmv.Capture.{capture_fmv_snapshot}
use routeweiler_python_sdk.Budgets.Store.{
  BudgetEnvelope, Store, Providers, others, load_fmv_snapshot_sync, upsert_snapshot_sync,
  envelope_exists_sync, sats_rates_of, provider_cross, new_row, create_envelope_sync,
  create_envelope,
}

delete-absent :
    {K : Type 0} (i : String) (files : Files K) → file_at i files ≡ none → delete i files ≡ files
unfolding delete
delete-absent i [] h = refl
delete-absent i ((j, f) ∷ files) h = elim (Bool-cases (str_eq j i)) [
  | inl e ↦ ground (arith, h, e)
  | inr e ↦ rw e (ap (λ fs. (j, f) ∷ fs) (delete-absent i files (rw e at h)))
]

delete-created :
    {K : Type 0} (i : String) (f : KeyFile K) (files : Files K)
    → file_at i files ≡ none
    → delete i ((i, f) ∷ files) ≡ files
unfolding delete
delete-created i f files h = rw (eq_refl i) (delete-absent i files h)

any-append :
    {A : Type 0} (p : A → Bool) (xs : List A) (x : A) → p x ≡ true → any p (xs ++ x ∷ []) ≡ true
any-append p [] x h = rw h refl
any-append p (y ∷ xs) x h = ground (arith, any-append p xs x h)

load_own :
    {K : Type 0} (posix : Bool) (k : K)
    → (if posix && not (bit_and 0o600 0o077 == 0) then err keystore_error else ok k) ≡ ok k
load_own true k = refl
load_own false k = refl

pub create_absent :
    {K : Type 0} (i : String) (k : K) (files : Files K)
    → file_at i files ≡ none
    → create i k files ≡ (ok k, (i, record { mode = 0o600; key = k }) ∷ files)
unfolding create
create_absent i k files h = rw (h, create) refl

pub create_present :
    {K : Type 0} (i : String) (k : K) (files : Files K) {f : KeyFile K}
    → file_at i files ≡ some f
    → create i k files ≡ (err keystore_already_exists, files)
unfolding create
create_present i k files h = rw (h, create) refl

load_created :
    {K : Type 0} (posix : Bool) (i : String) (k : K) (files : Files K)
    → load posix i ((i, record { mode = 0o600; key = k }) ∷ files) ≡ ok k
unfolding load
load_created posix i k files = rw (eq_refl i, load) (load_own posix k)

module _ (ed : Ed25519) (dec : Decimals) where
  open ed use {PrivateKey}

  -- The state after the creation of an envelope.
  abbrev pub with_envelope :
      ℕ → PrivateKey → String → BudgetEnvelope → Fmv.Rates dec → Store ed dec → Store ed dec
  with_envelope now generated pub_key spec rates s = record {
    db = record s.db { envelopes = s.db.envelopes ++ new_row ed dec now pub_key spec ∷ [] };
    files = (spec.id, record { mode = 0o600; key = generated }) ∷ s.files;
    snapshots = (spec.id, rates) ∷ others ed dec spec.id s.snapshots;
  }

  module _ (p : Providers ed dec) (now : ℕ) (generated : PrivateKey) (pub_key : String)
      (spec : BudgetEnvelope) (s : Store ed dec) where
    create_envelope_sync_lem :
        (rates : Fmv.Rates dec) (t : Store ed dec)
        → envelope_exists_sync ed dec spec.id t ≡ false
        → create_envelope_sync ed dec (new_row ed dec now pub_key spec) rates t ≡ (
          ok tt,
          record t {
            db = record t.db { envelopes = t.db.envelopes ++ new_row ed dec now pub_key spec ∷ [] };
            snapshots = (spec.id, rates) ∷ others ed dec spec.id t.snapshots;
          },
        )
    unfolding create_envelope_sync upsert_snapshot_sync envelope_exists_sync
    create_envelope_sync_lem rates t h = rw h (
        rw
          (any-append (has_envelope_id spec.id) t.db.envelopes (new_row ed dec now pub_key spec)
            (eq_refl spec.id))
          refl)

    -- Where there is neither a key file nor a row under the id and the rates are there, `create_envelope`
    -- adds a row, a key file and a snapshot and changes nothing else; then the key can be loaded, on POSIX
    -- systems too, the snapshot can be read and the envelope exists.
    pub create_envelope_lem :
        {sats cross : Option (Fmv.Rates dec)}
        → file_at spec.id s.files ≡ none
        → envelope_exists_sync ed dec spec.id s ≡ false
        → sats_rates_of ed dec p spec ≡ ok sats
        → provider_cross ed dec spec.cap_currency p.ecb ≡ ok cross
        → (s' : Store ed dec) × (create_envelope ed dec p now generated pub_key spec s
            ≡ (ok tt, s'))
          × (s'
              ≡ with_envelope now generated pub_key spec
                  (capture_fmv_snapshot dec spec.cap_currency sats cross)
                  s)
          × ((posix : Bool) → load posix spec.id s'.files ≡ ok generated)
          × (load_fmv_snapshot_sync ed dec spec.id s'
              ≡ some (capture_fmv_snapshot dec spec.cap_currency sats cross))
          × (envelope_exists_sync ed dec spec.id s' ≡ true)
    unfolding create_envelope load_fmv_snapshot_sync envelope_exists_sync
    create_envelope_lem {sats} {cross} no_file no_row sats_given cross_given =
        let rates = capture_fmv_snapshot dec spec.cap_currency sats cross in
        let opened = record s {
          files = (spec.id, record { mode = 0o600; key = generated }) ∷ s.files;
        } in
        (
          with_envelope now generated pub_key spec rates s,
          ground (
            arith,
            create_absent spec.id generated s.files no_file,
            sats_given,
            cross_given,
            create_envelope_sync_lem rates opened no_row,
          ),
          refl,
          λ posix. load_created posix spec.id generated s.files,
          rw (eq_refl spec.id) refl,
          any-append (has_envelope_id spec.id) s.db.envelopes (new_row ed dec now pub_key spec)
              (eq_refl spec.id),
        )

    -- Where there is no key file under the id and the rate of an L402 envelope fails, because there is no
    -- provider for it or the provider raises anything but FmvUnavailableError, `create_envelope` raises that
    -- error, adds no row and leaves the key file; from then on every creation under the same id raises
    -- KeystoreAlreadyExistsError, with any providers, and changes nothing.
    pub create_envelope-orphan :
        {e : Error}
        → file_at spec.id s.files ≡ none
        → sats_rates_of ed dec p spec ≡ err e
        → (s' : Store ed dec) × (create_envelope ed dec p now generated pub_key spec s
            ≡ (err e, s'))
          × (s'.db ≡ s.db)
          × ((p' : Providers ed dec) (now' : ℕ) (key' : PrivateKey) (pub_key' : String)
                (spec' : BudgetEnvelope)
              → spec'.id ≡ spec.id
              → create_envelope ed dec p' now' key' pub_key' spec' s'
                ≡ (err keystore_already_exists, s'))
    unfolding create_envelope
    create_envelope-orphan {e} no_file failing =
        let file : KeyFile PrivateKey = record { mode = 0o600; key = generated } in
        (
          record s { files = (spec.id, file) ∷ s.files },
          ground (arith, create_absent spec.id generated s.files no_file, failing),
          refl,
          λ p' now' key' pub_key' spec' same.
              let there : file_at spec'.id ((spec.id, file) ∷ s.files) ≡ some file =
                rw same (rw (eq_refl spec.id) refl) in
              ground (arith, create_present spec'.id key' ((spec.id, file) ∷ s.files) there),
        )

    -- Where a row but no key file exists under the id and the rates are there, `create_envelope` raises
    -- IntegrityError and changes nothing: the key file that it made is gone.
    pub create_envelope-duplicate :
        {sats cross : Option (Fmv.Rates dec)}
        → file_at spec.id s.files ≡ none
        → envelope_exists_sync ed dec spec.id s ≡ true
        → sats_rates_of ed dec p spec ≡ ok sats
        → provider_cross ed dec spec.cap_currency p.ecb ≡ ok cross
        → create_envelope ed dec p now generated pub_key spec s ≡ (err integrity, s)
    unfolding create_envelope create_envelope_sync envelope_exists_sync
    create_envelope-duplicate no_file row sats_given cross_given = ground (
      arith,
      create_absent spec.id generated s.files no_file,
      sats_given,
      cross_given,
      row,
      delete-created spec.id (record { mode = 0o600; key = generated }) s.files no_file,
    )
