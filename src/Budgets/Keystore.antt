-- ===== src/Budgets/Keystore.antt =====
-- src/routeweiler/budgets/keystore.py: one key file for each envelope. The directory is a list of
-- files by envelope id; a file's mode is its permission bits.
use Prim.Native.Nat.{bit_and}
use routeweiler_python_sdk.Prelude.{
  ℕ, String, Bool, true, false, Option, none, some, List, [], ◌∷◌, not, ◌&&◌, str_eq, ◌==◌,
  if◌then◌else◌,
}
use routeweiler_python_sdk.Budgets.Errors.{
  Result, ok, err, keystore_already_exists, keystore_not_found, keystore_error,
}

pub record KeyFile (K : Type 0) : Type 0 where
  pub mode : ℕ
  pub key : K

abbrev pub Files : Type 0 → Type 0
Files K = List (String × KeyFile K)

module _ {K : Type 0} where
  abbrev pub file_at : String → Files K → Option (KeyFile K)
  file_at i [] = none
  file_at i ((j, f) ∷ rest) = if str_eq j i then some f else file_at i rest

  -- `exists`
  unfoldable pub exists : String → Files K → Bool
  exists i files = elim (file_at i files) [ none ↦ false | some _ ↦ true ]

  -- `create`, with the generated key: `O_EXCL` refuses an existing file, the mode is 0o600.
  unfoldable pub create : String → K → Files K → Result K × Files K
  create i generated files = elim (file_at i files) [
    | none ↦ (ok generated, (i, record { mode = 0o600; key = generated }) ∷ files)
    | some _ ↦ (err keystore_already_exists, files)
  ]

  -- `load`; `posix` is `os.name == "posix"`.
  unfoldable pub load : Bool → String → Files K → Result K
  load posix i files = elim (file_at i files) [
    | none ↦ err keystore_not_found
    | some f ↦ if posix && not (bit_and f.mode 0o077 == 0) then err keystore_error else ok f.key
  ]

  -- `delete`: `unlink(missing_ok=True)`
  unfoldable pub delete : String → Files K → Files K
  delete i [] = []
  delete i ((j, f) ∷ rest) =
      let rest' = delete i rest in if str_eq j i then rest' else (j, f) ∷ rest'
