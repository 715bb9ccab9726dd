-- ===== src/Engine/Cache/Expiry.antt =====
-- What the cache gives back, and when.
use navigator_orchestrator_a.Prelude.{
  ℕ, ◌+◌, String, ◌≡◌, Option, none, some, arith, Dict, Value, get-put, str_eq, eq_iff,
  if◌then◌else◌, leb,
}
use navigator_orchestrator_a.Engine.Cache.{Entries, get_entry, set_entry, lapsed}

-- What was set under a key is what it gives until its time to live is over, counted from the
-- setting; from that moment on the key gives nothing. Every other key gives what it gave before.
pub get_entry-set_entry :
    (key j : String) (value : Dict Value) (ttl : Option ℕ) (now later : ℕ) (entries : Entries)
    → (get_entry j later (set_entry key value ttl now entries)).0 ≡ (
        if str_eq key j
        then elim ttl [
          | none ↦ some value
          | some t ↦ if leb (now + t) later then none else some value
        ]
        else (get_entry j later entries).0)
unfolding get_entry set_entry lapsed
get_entry-set_entry key j value ttl now later entries =
    let e : Option ℕ = elim ttl [ none ↦ none | some t ↦ some (now + t) ] in
    ground (arith, get-put entries key j (e, value), eq_iff key j)
