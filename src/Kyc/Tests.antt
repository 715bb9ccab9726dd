-- ===== src/Kyc/Tests.antt =====
-- Clients like those of the data files.
use navigator_orchestrator_a.Prelude.{
  ◌+◌, ◌*◌, ◌≤◌, true, false, ◌≡◌, ◌↔◌, refl, arith, none, some, List, [], ◌∷◌,
}
use navigator_orchestrator_a.Sdk.Context.{Ctx, ok, require, decline}
use navigator_orchestrator_a.Kyc.Records.{Client, given, say}
use navigator_orchestrator_a.Kyc.Sanctions.{
  Interest, Programme, Screening, sanctions_check, jurisdiction, controlling, country_hit, screened,
  unless_declined,
}
use navigator_orchestrator_a.Kyc.Eligibility.{
  Financials, Assets, private_banking_uhnwi, eligibility_of, compute_eligibility, tier_of,
  conventional_of, alternative_of, counted_doubled,
}
use navigator_orchestrator_a.Kyc.Eligibility.Tiers.{
  Richer, rank, compute_eligibility_mono, eligibility_of-bounds,
}

abbrev viktor : Client
viktor = record {
  client_id = "CL-0008";
  name = "Viktor Aslanov";
  country = some "CY";
  country_of_legal_residency = some "CY";
  right_to_reside = true;
}

abbrev iran : List Programme
iran = record { country = "IR"; programme = "comprehensive"; effect = "decline" } ∷ []

abbrev quiet_ctx : Ctx
quiet_ctx = record {
  params = [];
  in_project = true;
  notes = [];
  skipped = "";
  detail = [];
  output_schema = none;
}

abbrev in_germany : Interest
in_germany = record { business_name = "A"; country_of_operations = "DE"; stake = 2600 }

abbrev in_iran : Interest
in_iran = record { business_name = "B"; country_of_operations = "IR"; stake = 7450 }

abbrev cleared_screening : Screening
cleared_screening = record {
  country = "DE";
  basis = "controlling stake in A";
  country_programme = none;
  country_effect = "clear";
  individual_listed = false;
}

-- A second controlling stake is not looked at.
second_stake :
    (sanctions_check (λ s. s) iran [] viktor (in_germany ∷ in_iran ∷ []) quiet_ctx).0
    ≡ ok cleared_screening
unfolding sanctions_check jurisdiction controlling given country_hit screened require say
    unless_declined decline
second_stake = refl

abbrev modest : Financials
modest = record { annual_income = 90000; savings = 40000 }

abbrev some_assets : Assets
some_assets = record {
  investable = 1900000;
  liquid = 50000;
  art = 0;
  crypto = 0;
  has_art = false;
  art_items = [];
}

abbrev more_assets : Assets
more_assets = record {
  investable = 1900000;
  liquid = 250000;
  art = 0;
  crypto = 9;
  has_art = false;
  art_items = [];
}

abbrev all_art : Assets
all_art = record {
  investable = 0;
  liquid = 0;
  art = 20000000;
  crypto = 0;
  has_art = true;
  art_items = [];
}

richer : Richer modest modest some_assets more_assets
richer = record {
  income = omega arith;
  savings = omega arith;
  investable = omega arith;
  liquid = omega arith;
  art = omega arith;
  crypto = omega arith;
}

compute_eligibility-mono_example :
    let e = eligibility_of viktor modest some_assets in
    let e' = eligibility_of viktor modest more_assets in
    ((compute_eligibility viktor modest some_assets quiet_ctx).0 ≡ ok e)
    × ((compute_eligibility viktor modest more_assets quiet_ctx).0 ≡ ok e')
    × (rank e.tier ≤ rank e'.tier)
compute_eligibility-mono_example =
    compute_eligibility_mono viktor modest modest some_assets more_assets quiet_ctx richer

-- Twenty millions of art and nothing else: half of it is counted, and is all that is.
only_art : (eligibility_of viktor modest all_art).tier ≡ private_banking_uhnwi
unfolding eligibility_of tier_of conventional_of alternative_of counted_doubled
only_art = refl

eligibility_of-bounds_example :
    let e = eligibility_of viktor modest all_art in
    let q = e.uhnwi_qualifying_doubled in
    let total = e.conventional + e.alternative in
    (2 * e.conventional ≤ q)
    × (q ≤ 2 * total)
    × (q ≤ 2 * e.conventional + total)
    × (e.alternative ≤ e.conventional → q ≡ 2 * total)
    × ((e.tier ≡ private_banking_uhnwi)
        ↔ ((10000000 ≤ total) × (20000000 ≤ 3 * e.conventional + e.alternative)))
eligibility_of-bounds_example = eligibility_of-bounds viktor modest all_art
