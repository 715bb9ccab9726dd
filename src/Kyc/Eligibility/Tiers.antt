-- ===== src/Kyc/Eligibility/Tiers.antt =====
-- How the tier depends on the client's means.
use navigator_orchestrator_a.Prelude.{ℕ, ◌+◌, ◌*◌, ◌≤◌, Bool, true, ◌≡◌, ◌↔◌, refl, arith}
use navigator_orchestrator_a.Sdk.Context.{Ctx, ok}
use navigator_orchestrator_a.Kyc.Records.{Client, say, ◌>>=◌}
use navigator_orchestrator_a.Kyc.Eligibility.{
  Financials, Assets, Tier, ineligible, premium, private_banking_hnwi, private_banking_uhnwi,
  conventional_of, alternative_of, counted_doubled, tier_of, premium_resident, premium_means,
  eligibility_of, capped_note, compute_eligibility,
}

-- The tiers in order.
unfoldable pub rank : Tier → ℕ
rank ineligible = 0
rank premium = 1
rank private_banking_hnwi = 2
rank private_banking_uhnwi = 3

-- The second has no less of anything.
pub record Richer (f f' : Financials) (a a' : Assets) : Type 0 where
  pub income : f.annual_income ≤ f'.annual_income
  pub savings : f.savings ≤ f'.savings
  pub investable : a.investable ≤ a'.investable
  pub liquid : a.liquid ≤ a'.liquid
  pub art : a.art ≤ a'.art
  pub crypto : a.crypto ≤ a'.crypto

capped_note-ok :
    (conventional alternative : ℕ) (c : Ctx) → (capped_note conventional alternative c).0 ≡ ok tt
unfolding capped_note say
capped_note-ok conventional alternative c = ground arith

-- The step always returns.
compute_eligibility-ok :
    (client : Client) (f : Financials) (a : Assets) (c : Ctx)
    → (compute_eligibility client f a c).0 ≡ ok (eligibility_of client f a)
unfolding compute_eligibility capped_note say
compute_eligibility-ok client f a c =
    rw
      (
        capped_note-ok (eligibility_of client f a).conventional
            (eligibility_of client f a).alternative c,
        ◌>>=◌,
      )
      refl

tier_of_mono :
    (q q' n n' : ℕ) (r m m' : Bool)
    → q ≤ q'
    → n ≤ n'
    → (m ≡ true → m' ≡ true)
    → rank (tier_of q n r m) ≤ rank (tier_of q' n' r m')
unfolding rank tier_of
tier_of_mono q q' n n' r m m' hq hn hm = ground arith

means_mono :
    (f f' : Financials) (a a' : Assets)
    → Richer f f' a a'
    → premium_means f ≡ true
    → premium_means f' ≡ true
unfolding premium_means
means_mono f f' a a' h m = ground (arith, h.income, h.savings)

qualifying_mono :
    (client : Client) (f f' : Financials) (a a' : Assets)
    → Richer f f' a a'
    → (eligibility_of client f a).uhnwi_qualifying_doubled
      ≤ (eligibility_of client f' a').uhnwi_qualifying_doubled
unfolding eligibility_of conventional_of alternative_of counted_doubled
qualifying_mono client f f' a a' h = omega (arith, h.investable, h.liquid, h.art, h.crypto)

tier_of-top : (q n : ℕ) (r m : Bool) → tier_of q n r m ≡ private_banking_uhnwi → 20000000 ≤ q
unfolding tier_of
tier_of-top q n r m e = ground arith

top-tier_of : (q n : ℕ) (r m : Bool) → 20000000 ≤ q → tier_of q n r m ≡ private_banking_uhnwi
unfolding tier_of
top-tier_of q n r m e = ground arith

conventional_mono :
    (f f' : Financials) (a a' : Assets) → Richer f f' a a' → conventional_of a ≤ conventional_of a'
unfolding conventional_of
conventional_mono f f' a a' h = omega (arith, h.investable, h.liquid)

-- The step always returns a tier, and more money never lowers it: of two clients with the same
-- address, one with no less of any income, saving or holding has no lower a tier.
pub compute_eligibility_mono :
    (client : Client) (f f' : Financials) (a a' : Assets) (c : Ctx)
    → Richer f f' a a'
    → let e = eligibility_of client f a in
      let e' = eligibility_of client f' a' in
      ((compute_eligibility client f a c).0 ≡ ok e)
      × ((compute_eligibility client f' a' c).0 ≡ ok e')
      × (rank e.tier ≤ rank e'.tier)
unfolding eligibility_of
compute_eligibility_mono client f f' a a' c h = (
  compute_eligibility-ok client f a c,
  compute_eligibility-ok client f' a' c,
  tier_of_mono (eligibility_of client f a).uhnwi_qualifying_doubled
      (eligibility_of client f' a').uhnwi_qualifying_doubled (conventional_of a)
      (conventional_of a') (premium_resident client) (premium_means f) (premium_means f')
      (qualifying_mono client f f' a a' h) (conventional_mono f f' a a' h) (means_mono f f' a a' h),
)

-- What qualifies for the highest tier lies between the conventional part and the whole portfolio,
-- counts no more art and crypto than half of the whole, and leaves nothing out when these are no
-- more than the rest; and the tier is the highest exactly when the whole reaches ten million and
-- three times the conventional part with the alternative one reaches twenty.
pub eligibility_of-bounds :
    (client : Client) (f : Financials) (a : Assets)
    → let e = eligibility_of client f a in
      let q = e.uhnwi_qualifying_doubled in
      let total = e.conventional + e.alternative in
      (2 * e.conventional ≤ q)
      × (q ≤ 2 * total)
      × (q ≤ 2 * e.conventional + total)
      × (e.alternative ≤ e.conventional → q ≡ 2 * total)
      × ((e.tier ≡ private_banking_uhnwi)
          ↔ ((10000000 ≤ total) × (20000000 ≤ 3 * e.conventional + e.alternative)))
unfolding eligibility_of counted_doubled tier_of
eligibility_of-bounds client f a =
    let n = conventional_of a in
    let m = alternative_of a in
    (
      omega arith,
      omega arith,
      omega arith,
      λ h. omega (arith, h),
      (
        λ t.
            let q =
              tier_of-top (2 * n + counted_doubled n m) n (premium_resident client)
                (premium_means f) t in
            (omega (arith, q), omega (arith, q)),
        λ h.
            top-tier_of (2 * n + counted_doubled n m) n (premium_resident client) (premium_means f)
              (omega (arith, h.0, h.1)),
      ),
    )
