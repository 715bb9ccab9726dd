-- ===== src/Engine/Cache.antt =====
-- InMemoryCache of src/navigator_orchestrator/engine/cache.py. The readings of the clock are
-- arguments, in seconds; a time to live is a number of seconds.
pub mod Expiry
use navigator_orchestrator_a.Prelude.{
  ℕ, ◌+◌, String, Bool, false, Option, none, some, [], leb, if◌then◌else◌, join, Dict, get, put,
  remove, Value,
}

-- The key's expiry (None for never) and value.
abbrev pub Entries : Type 0
Entries = Dict (Option ℕ × Dict Value)

-- expires_at is not None and expires_at <= now
unfoldable pub lapsed : Option ℕ → ℕ → Bool
lapsed none now = false
lapsed (some expires_at) now = leb expires_at now

-- The value, and the entries left.
unfoldable pub get_entry : String → ℕ → Entries → Option (Dict Value) × Entries
unfolding lapsed
get_entry key now entries = elim (get entries key) [
  | none ↦ (none, entries)
  | some (expires_at, value) ↦
      if lapsed expires_at now then (none, remove entries key) else (some value, entries)
]

unfoldable pub set_entry : String → Dict Value → Option ℕ → ℕ → Entries → Entries
set_entry key value ttl_s now entries =
    put entries key ((elim ttl_s [ none ↦ none | some ttl ↦ some (now + ttl) ]), value)

unfoldable pub clear_entries : Entries → Entries
clear_entries entries = []

-- sha256 and the normalised JSON text are the standard library's: parameters.
unfoldable pub cache_key :
    (String → String) → (Dict Value → String) → String → Dict Value → String → String
cache_key sha256 normalized workflow payload fingerprint =
    sha256 (join workflow (join "\0" (join (normalized payload) (join "\0" fingerprint))))
