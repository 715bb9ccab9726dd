-- ===== src/Kyc/Records.antt =====
-- The rows that src/workflows/kyc/templates/kyc_onboarding.py reads from its JSON files, by the
-- fields that it uses, and the hooks that need no more than them. A percentage is in hundredths of
-- a percent, an amount in euros, as in the files; `lower` is `str.lower`, which needs the tables of
-- Unicode.
use navigator_orchestrator_a.Prelude.{
  String, Bool, false, if◌then◌else◌, Option, none, some, List, [], ◌∷◌, join, repr, strip, str_eq,
  non_empty, or_else,
}
use navigator_orchestrator_a.Sdk.Context.{Ctx, blocked, Result, ok, err, require, note}

-- What a hook does: it returns or raises, and leaves the context.
abbrev pub Action : Type 0 → Type 0
Action A = Ctx → Result A × Ctx

infixl 5 ◌>>=◌
abbrev pub ◌>>=◌ : {A B : Type 0} → Action A → (A → Action B) → Action B
◌>>=◌ m f c = let (r, c') = m c in elim r [ ok a ↦ f a c' | err e ↦ (err e, c') ]

abbrev pub pure : {A : Type 0} → A → Action A
pure a c = (ok a, c)

unfoldable pub say : String → Action (Unit {0})
unfolding note
say text c = (ok tt, note text c)

-- clients.json; a field of the address that is missing is none
pub record Client : Type 0 where
  pub client_id : String
  pub name : String
  pub country : Option String
  pub country_of_legal_residency : Option String
  pub right_to_reside : Bool

-- next((row for row in rows if row.get("client_id") == client_id), {})
unfoldable pub row {ℓ} : {A : Type ℓ} → (A → String) → List A → String → Option A
row id_of [] client_id = none
row id_of (r ∷ rows) client_id =
    if str_eq (id_of r) client_id then some r else row id_of rows client_id

-- bool(text), where none is falsy too
unfoldable pub given : Option String → Bool
given none = false
given (some s) = non_empty s

-- _load_client
unfoldable pub load_client : List Client → String → Action Client
unfolding row require say
load_client clients client_id c = elim (row (λ r. r.client_id) clients client_id) [
  | none ↦ (err (blocked (join "no client " (join (repr client_id) " in data/clients.json"))), c)
  | some client ↦
      (say (join "screening " (join client.name (join " (" (join client_id ")")))) >>= λ u.
      pure client)
        c
]

-- _validate_jurisdiction
unfoldable pub validate_jurisdiction : Client → Action String
unfolding given require
validate_jurisdiction client =
    require (given client.country) (
      join "client " (
        join client.client_id (
          join " has no country on its address; "
            "country-scoped sanctions screening cannot be performed")))
    >>= λ u. pure (or_else client.country "")

-- a.strip().lower() == b.strip().lower()
unfoldable pub same_name : (String → String) → String → String → Bool
same_name lower a b = str_eq (lower (strip a)) (lower (strip b))

-- pep_list.json
pub record PepEntry : Type 0 where
  pub name : String
  pub position : String
  pub country : String

pub record PepRegister : Type 0 where
  pub source_list : String
  pub entries : List PepEntry

-- What the step publishes: the register, and the entry that matches (is_pep) if one does.
pub record Pep : Type 0 where
  pub source_list : String
  pub entry : Option PepEntry

unfoldable pub named : (String → String) → String → List PepEntry → Option PepEntry
unfolding same_name
named lower name [] = none
named lower name (e ∷ es) = if same_name lower e.name name then some e else named lower name es

-- _pep_check
unfoldable pub pep_check : (String → String) → PepRegister → Client → Action Pep
unfolding named say
pep_check lower register client c = elim (named lower client.name register.entries) [
  | none ↦ (ok (record { source_list = register.source_list; entry = none }), c)
  | some e ↦
      (say (join "PEP match: " (join e.position (join " (" (join e.country ")")))) >>= λ u.
      pure (record { source_list = register.source_list; entry = some e }))
        c
]
