-- ===== src/Routing/Sticky.antt =====
-- src/routeweiler/routing/sticky.py: the cache of the last rail that served an origin. A datetime is a
-- number of microseconds; the dict is a list of entries.
use routeweiler_python_sdk.Prelude.{
  ℕ, ◌+◌, String, Bool, true, false, Option, none, some, List, [], ◌∷◌, not, ◌&&◌, str_eq, ltb, leb,
  filter, if◌then◌else◌,
}
use routeweiler_python_sdk.Normalized.{Rail}

-- `StickyKey`
pub record StickyKey : Type 0 where
  pub origin : String
  pub agent_id : Option String
  pub session_id : Option String

abbrev opt_eq : Option String → Option String → Bool
opt_eq none none = true
opt_eq (some a) (some b) = str_eq a b
opt_eq _ _ = false

abbrev pub key_eq : StickyKey → StickyKey → Bool
key_eq a b =
    str_eq a.origin b.origin && (opt_eq a.agent_id b.agent_id && opt_eq a.session_id b.session_id)

-- `_StickyEntry`, with its key.
pub record StickyEntry : Type 0 where
  pub key : StickyKey
  pub rail : Rail
  pub expires_at : ℕ

abbrev pub earlier : ℕ → ℕ → ℕ
earlier a b = if leb a b then a else b

abbrev pub without : StickyKey → List StickyEntry → List StickyEntry
without k entries = filter (λ (e : StickyEntry). not (key_eq e.key k)) entries

abbrev pub entry_at : StickyKey → List StickyEntry → Option StickyEntry
entry_at k [] = none
entry_at k (e ∷ rest) = if key_eq e.key k then some e else entry_at k rest

-- `remember`: the expired entries are swept, and the new one replaces the key's.
unfoldable pub remember : ℕ → ℕ → StickyKey → Rail → ℕ → List StickyEntry → List StickyEntry
remember ttl now k r challenge_expires_at entries =
    record { key = k; rail = r; expires_at = earlier challenge_expires_at (now + ttl) }
    ∷ without k (filter (λ (e : StickyEntry). ltb now e.expires_at) entries)

-- `lookup`: an expired entry is deleted.
unfoldable pub lookup : ℕ → StickyKey → List StickyEntry → Option Rail × List StickyEntry
lookup now k entries = elim (entry_at k entries) [
  | none ↦ (none, entries)
  | some e ↦ if leb e.expires_at now then (none, without k entries) else (some e.rail, entries)
]

-- `forget`
unfoldable pub forget : StickyKey → List StickyEntry → List StickyEntry
forget k entries = without k entries
