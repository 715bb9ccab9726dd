-- ===== src/Kyc/Sanctions/Clearance.antt =====
-- What a client that the sanctions step lets through has been cleared of, and why it refuses another.
use navigator_orchestrator_a.Prelude.{
  ◌≤◌, ◌<◌, String, true, false, ◌≡◌, ◌≢◌, Option, none, some, List, ◌∷◌, ◌++◌, All, str_eq, one_of,
  join, or_else, strip,
}
use navigator_orchestrator_a.Sdk.Context.{Ctx, Exn, Result, ok, err}
use navigator_orchestrator_a.Kyc.Records.{Client}
use navigator_orchestrator_a.Kyc.Sanctions.{
  Interest, Programme, Screening, controlling_stake, jurisdiction, screened, sanctions_check,
}

-- The country is that of the first interest with a controlling stake, or, when no interest has one,
-- that of the residency, or, when this is missing or empty, that of the address.
pub data Decides (client : Client) (interests : List Interest) (country : String) : Type 0 where
  by_stake :
      (before after : List Interest) (i : Interest)
      → interests ≡ before ++ i ∷ after
      → All (λ j. j.stake < controlling_stake) before
      → controlling_stake ≤ i.stake
      → i.country_of_operations ≡ country
      → Decides client interests country
  by_residency :
      All (λ j. j.stake < controlling_stake) interests
      → client.country_of_legal_residency ≡ some country
      → country ≢ ""
      → Decides client interests country
  by_address :
      All (λ j. j.stake < controlling_stake) interests
      → ((s : String) → client.country_of_legal_residency ≡ some s → s ≡ "")
      → client.country ≡ some country
      → Decides client interests country

-- The first programme of the file that is the country's.
pub record FirstOf (country : String) (programmes : List Programme) (p : Programme) : Type 0 where
  pub before : List Programme
  pub after : List Programme
  pub split : programmes ≡ before ++ p ∷ after
  pub others : All (λ q. str_eq q.country country ≡ false) before
  pub its : p.country ≡ country

-- The first programme of the country, if there is one, does not decline, and the client's name is
-- none of the designated ones.
pub record Cleared (lower : String → String) (programmes : List Programme)
    (designated : List String) (client : Client) (interests : List Interest) (r : Screening)
    : Type 0 where
  pub decides : Decides client interests r.country
  pub known : r.country ≢ ""
  pub effect : (p : Programme) → FirstOf r.country programmes p → p.effect ≢ "decline"
  pub unlisted : All (λ name. lower (strip name) ≢ lower (strip client.name)) designated

-- The answers of the step, each with its cause.
pub data Answered (lower : String → String) (programmes : List Programme) (designated : List String)
    (client : Client) (interests : List Interest) : Result Screening → Type 0 where
  clear :
      (r : Screening)
      → Cleared lower programmes designated client interests r
      → Answered lower programmes designated client interests (ok r)
  -- the country that decides is missing, or is empty
  unresolved :
      (message : String)
      → ((country : String) → Decides client interests country → country ≡ "")
      → Answered lower programmes designated client interests (err (Exn.blocked message))
  by_programme :
      (message country : String) (p : Programme)
      → Decides client interests country
      → FirstOf country programmes p
      → p.effect ≡ "decline"
      → Answered lower programmes designated client interests (err (Exn.declined message))
  by_designation :
      (message name : String)
      → one_of name designated ≡ true
      → lower (strip name) ≡ lower (strip client.name)
      → Answered lower programmes designated client interests (err (Exn.declined message))

abbrev effect_of : Option Programme → String
effect_of hit = elim hit [ none ↦ "clear" | some p ↦ p.effect ]

module _ (lower : String → String) (programmes : List Programme) (designated : List String)
    (client : Client) (interests : List Interest) (c : Ctx) where
  abbrev Answer : Result Screening → Type 0
  Answer = Answered lower programmes designated client interests

  abbrev answer : Result Screening
  answer = (sanctions_check lower programmes designated client interests c).0

  abbrev screening : String → Screening
  screening country =
      screened lower programmes designated client country (jurisdiction client interests).1

  abbrev unresolved_text : String
  unresolved_text = "sanctions jurisdiction could not be resolved"

  abbrev declined_text : String → String
  declined_text country =
      join "sanctions screening declines this client: "
        (join country (join " is " (or_else (screening country).country_programme "None")))
