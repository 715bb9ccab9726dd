-- ===== src/Kyc/Eligibility.antt =====
-- _compute_eligibility of kyc_onboarding.py. The cap of one half makes halves of euros, so the
-- amounts that it can touch are kept doubled (the source holds them in floats).
pub mod Tiers
use navigator_orchestrator_a.Prelude.{
  ℕ, zero, suc, ◌+◌, ◌*◌, String, Bool, true, false, ◌&&◌, ◌||◌, if◌then◌else◌, Option, none, some,
  List, ◌==◌, ltb, leb, join, str_eq, show_nat, Value,
}
use Prim.Native.Nat.{min, ◌/◌, ◌%◌}
use navigator_orchestrator_a.Sdk.Context.{ok, note}
use navigator_orchestrator_a.Kyc.Records.{Action, Client, say, ◌>>=◌, pure}

-- client_financials.json and client_assets.json; 0 where a field or the row is missing
pub record Financials : Type 0 where
  pub annual_income : ℕ
  pub savings : ℕ

pub record Assets : Type 0 where
  pub investable : ℕ
  pub liquid : ℕ
  pub art : ℕ
  pub crypto : ℕ
  pub has_art : Bool
  pub art_items : List Value

pub data Tier : Type 0 where
  ineligible premium private_banking_hnwi private_banking_uhnwi : Tier

pub record Eligibility : Type 0 where
  pub tier : Tier
  pub conventional : ℕ
  pub alternative : ℕ
  -- twice uhnwi_qualifying_eur
  pub uhnwi_qualifying_doubled : ℕ
  pub premium_residency_met : Bool
  pub premium_means_met : Bool
  pub has_art : Bool
  pub art_items : List Value

unfoldable pub conventional_of : Assets → ℕ
conventional_of a = a.investable + a.liquid

unfoldable pub alternative_of : Assets → ℕ
alternative_of a = a.art + a.crypto

-- Twice min(alternative, cap), where the cap is half of the total.
unfoldable pub counted_doubled : ℕ → ℕ → ℕ
counted_doubled conventional alternative = min (2 * alternative) (conventional + alternative)

-- The if-chain: twice what qualifies, the conventional part, and the two tests for Premium.
unfoldable pub tier_of : ℕ → ℕ → Bool → Bool → Tier
tier_of qualifying_doubled conventional resident means =
    if leb (2 * 10000000) qualifying_doubled
    then private_banking_uhnwi
    else if leb 2000000 conventional
    then private_banking_hnwi
    else if resident && means
    then premium
    else ineligible

unfoldable pub premium_resident : Client → Bool
premium_resident client =
    (elim client.country [ none ↦ false | some c ↦ str_eq c "DE" ]) && client.right_to_reside

unfoldable pub premium_means : Financials → Bool
premium_means f = leb 120000 f.annual_income || leb 100000 f.savings

unfoldable pub eligibility_of : Client → Financials → Assets → Eligibility
unfolding conventional_of alternative_of counted_doubled tier_of premium_resident premium_means
eligibility_of client financials assets =
    let conventional = conventional_of assets in
    let alternative = alternative_of assets in
    let qualifying = 2 * conventional + counted_doubled conventional alternative in
    record {
      tier = tier_of qualifying conventional (premium_resident client) (premium_means financials);
      conventional = conventional;
      alternative = alternative;
      uhnwi_qualifying_doubled = qualifying;
      premium_residency_met = premium_resident client;
      premium_means_met = premium_means financials;
      has_art = assets.has_art;
      art_items = assets.art_items;
    }

unfoldable pub show_tier : Tier → String
show_tier ineligible = "ineligible"
show_tier premium = "premium"
show_tier private_banking_hnwi = "private_banking_hnwi"
show_tier private_banking_uhnwi = "private_banking_uhnwi"

-- Three digits.
padded : ℕ → String
padded n =
    if ltb n 10
    then join "00" (show_nat n)
    else if ltb n 100
    then join "0" (show_nat n)
    else show_nat n

-- f"{n:,}", where `fuel` above the number is enough, since each round divides it by a thousand
grouped : ℕ → ℕ → String
unfolding padded
grouped zero n = ""
grouped (suc fuel) n =
    let front = grouped fuel (n / 1000) in
    if ltb n 1000 then show_nat n else join front (join "," (padded (n % 1000)))

-- f"{x:,.0f}" of the half of n: a half is rounded to the even number
show_half : ℕ → String
unfolding grouped
show_half n =
    let down = n / 2 in
    let rounded = if n % 2 == 1 && down % 2 == 1 then down + 1 else down in
    grouped (rounded + 1) rounded

unfoldable pub capped_note : ℕ → ℕ → Action (Unit {0})
unfolding counted_doubled show_half say
capped_note conventional alternative c =
    let total = conventional + alternative in
    if ltb total (2 * alternative)
    then say
        (join "art+crypto " (
          join (show_half (2 * alternative)) (
            join " exceeds 50% of " (
              join (show_half (2 * total))
                (join "; counted " (show_half (counted_doubled conventional alternative)))))))
        c
    else (ok tt, c)

unfoldable pub compute_eligibility : Client → Financials → Assets → Action Eligibility
unfolding eligibility_of capped_note say show_tier
compute_eligibility client financials assets =
    let e = eligibility_of client financials assets in
    capped_note e.conventional e.alternative >>= λ u.
    say (join "tier: " (show_tier e.tier)) >>= λ u. pure e
