-- ===== src/Kyc/Sanctions.antt =====
-- _sanctions_check of kyc_onboarding.py.
pub mod Clearance
use navigator_orchestrator_a.Prelude.{
  ℕ, String, Bool, true, false, not, if◌then◌else◌, Option, none, some, List, [], ◌∷◌, any, leb,
  join, is_some, or_else, str_eq,
}
use navigator_orchestrator_a.Sdk.Context.{Result, ok, err, require, decline}
use navigator_orchestrator_a.Kyc.Records.{Action, ◌>>=◌, pure, say, Client, given, same_name}

pub record Interest : Type 0 where
  pub business_name : String
  pub country_of_operations : String
  -- stake_pct, 0 where it is missing
  pub stake : ℕ

pub record Programme : Type 0 where
  pub country : String
  pub programme : String
  pub effect : String

pub record Screening : Type 0 where
  pub country : String
  pub basis : String
  pub country_programme : Option String
  pub country_effect : String
  pub individual_listed : Bool

-- CONTROLLING_STAKE_PCT
abbrev pub controlling_stake : ℕ
controlling_stake = 2500

-- The first interest with a controlling stake.
unfoldable pub controlling : List Interest → Option Interest
controlling [] = none
controlling (i ∷ is) = if leb controlling_stake i.stake then some i else controlling is

-- The first programme of the country.
unfoldable pub country_hit : String → List Programme → Option Programme
country_hit country [] = none
country_hit country (p ∷ ps) = if str_eq p.country country then some p else country_hit country ps

-- The country and the basis: a controlling stake decides before residency does.
unfoldable pub jurisdiction : Client → List Interest → Option String × String
unfolding controlling given
jurisdiction client interests = elim (controlling interests) [
  | some i ↦ (some i.country_of_operations, join "controlling stake in " i.business_name)
  | none ↦ (
    (if given client.country_of_legal_residency
        then client.country_of_legal_residency
        else client.country),
    "legal residency",
  )
]

unfoldable pub screened :
    (String → String) → List Programme → List String → Client → String → String → Screening
unfolding country_hit same_name
screened lower programmes designated client country basis =
    let hit = country_hit country programmes in
    record {
      country = country;
      basis = basis;
      country_programme = elim hit [ none ↦ none | some p ↦ some p.programme ];
      country_effect = elim hit [ none ↦ "clear" | some p ↦ p.effect ];
      individual_listed = any (λ name. same_name lower name client.name) designated;
    }

unfoldable pub unless_declined : Bool → String → Action (Unit {0})
unfolding decline
unless_declined refused reason c = if refused then decline reason c else (ok tt, c)

unfoldable pub sanctions_check :
    (String → String) → List Programme → List String → Client → List Interest → Action Screening
unfolding jurisdiction given require screened say unless_declined
sanctions_check lower programmes designated client interests =
    let (found, basis) = jurisdiction client interests in
    require (given found) "sanctions jurisdiction could not be resolved" >>= λ u.
    let country = or_else found "" in
    let result = screened lower programmes designated client country basis in
    say (
      join "sanctions jurisdiction "
        (join country (join " via " (join basis (join ": " result.country_effect)))))
    >>= λ u.
        unless_declined (str_eq result.country_effect "decline") (
          join "sanctions screening declines this client: "
            (join country (join " is " (or_else result.country_programme "None"))))
        >>= λ u.
            unless_declined result.individual_listed (join client.name " is a designated person")
            >>= λ u. pure result
