-- ===== src/Assets.antt =====
-- src/routeweiler/assets.py: the registry of tokens and the tables that are computed from it at import.
-- A table keyed by pairs is an association list; later writes to a key replace earlier ones.
use routeweiler_python_sdk.Prelude.{ℕ, Option, none, some, List, [], ◌∷◌, ◌&&◌, if◌then◌else◌}
use routeweiler_python_sdk.Texts.{Text, codes, text_eq, lower, put}

-- `AssetMetadata`
pub record AssetMetadata : Type 0 where
  pub canonical_name : Text
  pub symbol : Text
  pub decimals : ℕ
  pub peg_currency : Option Text
  pub addresses : List (Text × Text)

-- `_USDC`
unfoldable pub usdc : AssetMetadata
usdc = record {
  canonical_name = codes "usdc";
  symbol = codes "USDC";
  decimals = 6;
  peg_currency = some (codes "usd");
  addresses =
      (codes "base", codes "0x833589fcd6edb6e08f4c7c32d4f71b54bda02913")
      ∷ (codes "base-sepolia", codes "0x036cbd53842c5426634e7929541ec2318f3dcf7e")
      ∷ (codes "polygon", codes "0x3c499c542cef5e3811e1192ce70d8cc03d5c3359")
      ∷ (codes "arbitrum", codes "0xaf88d065e77c8cc2239327c5edb3a432268e5831")
      ∷ [];
}

-- `_EURC`
unfoldable pub eurc : AssetMetadata
eurc = record {
  canonical_name = codes "eurc";
  symbol = codes "EURC";
  decimals = 6;
  peg_currency = some (codes "eur");
  addresses = (codes "base", codes "0x60a3e35cc302bfa44cb288bc5a4f316fdb1adb42") ∷ [];
}

-- `_PATHUSD`
unfoldable pub pathusd : AssetMetadata
pathusd = record {
  canonical_name = codes "pathusd";
  symbol = codes "PathUSD";
  decimals = 6;
  peg_currency = some (codes "usd");
  addresses = (codes "tempo-moderato", codes "0x20c0000000000000000000000000000000000000") ∷ [];
}

-- `_TEMPO_USDC`
unfoldable pub tempo_usdc : AssetMetadata
tempo_usdc = record {
  canonical_name = codes "usdc";
  symbol = codes "USDC";
  decimals = 6;
  peg_currency = some (codes "usd");
  addresses = (codes "tempo", codes "0x20c000000000000000000000b9537d11c60e8b50") ∷ [];
}

-- `ASSETS`
unfoldable pub assets : List (Text × AssetMetadata)
unfolding usdc eurc pathusd
assets = (codes "usdc", usdc) ∷ (codes "eurc", eurc) ∷ (codes "pathusd", pathusd) ∷ []

-- `TEMPO_ASSETS`
unfoldable pub tempo_assets : List ((Text × Text) × AssetMetadata)
unfolding pathusd tempo_usdc
tempo_assets =
    ((codes "tempo-moderato", codes "pathusd"), pathusd)
    ∷ ((codes "tempo", codes "usdc"), tempo_usdc)
    ∷ []

-- A table whose keys are pairs of texts.
module _ {V : Type 0} where
  unfoldable pub get_pair : Text → Text → List ((Text × Text) × V) → Option V
  get_pair a b [] = none
  get_pair a b (((i, j), v) ∷ rest) =
      if text_eq i a && text_eq j b then some v else get_pair a b rest

  unfoldable pub put_pair : Text → Text → V → List ((Text × Text) × V) → List ((Text × Text) × V)
  put_pair a b v [] = ((a, b), v) ∷ []
  put_pair a b v (((i, j), w) ∷ rest) =
      if text_eq i a && text_eq j b then ((i, j), v) ∷ rest else ((i, j), w) ∷ put_pair a b v rest

-- One asset's addresses under its name.
unfoldable pub add_names :
    Text → List (Text × Text) → List ((Text × Text) × Text) → List ((Text × Text) × Text)
unfolding put_pair lower
add_names name [] table = table
add_names name ((net, addr) ∷ more) table =
    add_names name more (put_pair net name (lower addr) table)

unfoldable pub add_assets :
    List (Text × AssetMetadata) → List ((Text × Text) × Text) → List ((Text × Text) × Text)
unfolding add_names
add_assets [] table = table
add_assets ((name, meta) ∷ more) table = add_assets more (add_names name meta.addresses table)

-- Each address of a Tempo asset stands under the network of its entry.
unfoldable pub add_tempo_names :
    Text → Text → List (Text × Text) → List ((Text × Text) × Text) → List ((Text × Text) × Text)
unfolding put_pair lower
add_tempo_names net name [] table = table
add_tempo_names net name ((_, addr) ∷ more) table =
    add_tempo_names net name more (put_pair net name (lower addr) table)

unfoldable pub add_tempo_assets :
    List ((Text × Text) × AssetMetadata) → List ((Text × Text) × Text) → List ((Text × Text) × Text)
unfolding add_tempo_names
add_tempo_assets [] table = table
add_tempo_assets (((net, name), meta) ∷ more) table =
    add_tempo_assets more (add_tempo_names net name meta.addresses table)

-- `CANONICAL_ADDRESSES`
unfoldable pub canonical_addresses : List ((Text × Text) × Text)
unfolding assets tempo_assets add_assets add_tempo_assets
canonical_addresses = add_tempo_assets tempo_assets (add_assets assets [])

unfoldable pub add_addresses :
    AssetMetadata → List (Text × Text) → List (Text × AssetMetadata) → List (Text × AssetMetadata)
unfolding put lower
add_addresses meta [] table = table
add_addresses meta ((_, addr) ∷ more) table = add_addresses meta more (put (lower addr) meta table)

unfoldable pub add_metas :
    List AssetMetadata → List (Text × AssetMetadata) → List (Text × AssetMetadata)
unfolding add_addresses
add_metas [] table = table
add_metas (meta ∷ more) table = add_metas more (add_addresses meta meta.addresses table)

-- `d.values()`
unfoldable pub values : {K V : Type 0} → List (K × V) → List V
values [] = []
values ((_, v) ∷ rest) = v ∷ values rest

-- `ASSETS_BY_ADDRESS`
unfoldable pub assets_by_address : List (Text × AssetMetadata)
unfolding assets tempo_assets add_metas values
assets_by_address = add_metas (values tempo_assets) (add_metas (values assets) [])
