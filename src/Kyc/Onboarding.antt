-- ===== src/Kyc/Onboarding.antt =====
-- The template and the last hook of kyc_onboarding.py. The hooks that the steps name are taken by
-- their names: Onboarding says which step runs which, and in what order.
pub mod Holding
mod Tests
use navigator_orchestrator_a.Prelude.{
  ℕ, String, Bool, true, false, Option, none, some, List, [], ◌∷◌, length, select, is_some, Value,
  Fields, get_field, truthy,
}
use navigator_orchestrator_a.Sdk.Context.{Hook, ok}
use navigator_orchestrator_a.Sdk.Templates.{
  Executor, local, agent, gate, Step, Template, typed, string,
}
use navigator_orchestrator_a.Kyc.Records.{Action, Client, Pep}
use navigator_orchestrator_a.Kyc.Sanctions.{Screening}
use navigator_orchestrator_a.Kyc.Eligibility.{Eligibility, Tier}

pub record Outcome : Type 0 where
  pub client_id : String
  pub name : String
  pub tier : Tier
  pub adverse_media_implicating : ℕ
  pub adverse_media_reviewed : ℕ
  pub is_pep : Bool
  pub sanctions_country : String
  pub sanctions_basis : String
  pub pep_gate : Value
  pub art_gate : Value

-- f.get("implicates_subject"), as a test
unfoldable pub implicates : Fields → Bool
implicates f = elim (get_field f "implicates_subject") [ none ↦ false | some v ↦ truthy v ]

-- _emit_outcome
unfoldable pub emit_outcome :
    Client → List Fields → Pep → Screening → Eligibility → Value → Value → Action Outcome
unfolding implicates
emit_outcome client adverse_media pep sanctions eligibility pep_decision art_decision c = (
  ok (record {
    client_id = client.client_id;
    name = client.name;
    tier = eligibility.tier;
    adverse_media_implicating = length (select implicates adverse_media);
    adverse_media_reviewed = length adverse_media;
    is_pep = is_some pep.entry;
    sanctions_country = sanctions.country;
    sanctions_basis = sanctions.basis;
    pep_gate = pep_decision;
    art_gate = art_decision;
  }),
  c,
)

-- A step of the template, with the defaults of `Step` for what it does not name.
step : String → Executor → String → List String → Option Hook → List String → String → String → Step
step name executor produces kwargs default summary_keys doc when = record {
  name = name;
  executor = executor;
  produces = produces;
  kwargs = kwargs;
  default = default;
  uses = "";
  summary_keys = summary_keys;
  doc = doc;
  command = [];
  timeout = 120000;
  call = none;
  backend = "";
  when = when;
  schema = "";
  input = "";
  output_schema = "";
}

-- The steps, where `hooks` gives the function of each name.
unfoldable pub kyc_steps : (String → Hook) → List Step
unfolding step
kyc_steps hooks =
    step "load_client" local "client" ("client_id" ∷ []) (some (hooks "_load_client"))
      ("client_id" ∷ "name" ∷ []) "fetch the client's identity record" ""
    ∷ step "validate_jurisdiction" local "jurisdiction" ("client" ∷ [])
        (some (hooks "_validate_jurisdiction")) ([])
        "a missing country blocks the run rather than passing it" ""
    ∷ step "extract_entities" agent "mentions" ("client" ∷ []) (some (hooks "_extract_entities"))
        ([]) "index proper names across the article corpus; no judgement" ""
    ∷ step "adjudicate_media" agent "adverse_media" ("client" ∷ "mentions" ∷ [])
        (some (hooks "_adjudicate_media")) ([])
        "is it adverse, and is the subject implicated or merely present?" ""
    ∷ step "pep_check" local "pep" ("client" ∷ []) (some (hooks "_pep_check")) ("is_pep" ∷ [])
        "exact lookup against the PEP register" ""
    ∷ step "pep_gate" gate "pep_decision" ("client" ∷ "pep" ∷ "adverse_media" ∷ []) none ([])
        "a PEP match is a decision a compliance officer owns, not a rejection" "pep.is_pep"
    ∷ step "sanctions_check" local "sanctions" ("client" ∷ "client_id" ∷ [])
        (some (hooks "_sanctions_check")) ("country" ∷ "basis" ∷ [])
        "resolve the relevant jurisdiction, then screen country and individual" ""
    ∷ step "compute_eligibility" local "eligibility" ("client" ∷ "client_id" ∷ [])
        (some (hooks "_compute_eligibility")) ("tier" ∷ [])
        "threshold arithmetic over income, savings and assets" ""
    ∷ step "art_gate" gate "art_decision" ("client" ∷ "eligibility" ∷ []) none ([])
        "art needs an attestation: historian review, provenance, no theft claim"
        "eligibility.has_art"
    ∷ step "emit_outcome" local "outcome"
        ("client" ∷ "adverse_media" ∷ "pep" ∷ "sanctions" ∷ "eligibility" ∷ "pep_decision"
          ∷ "art_decision" ∷ [])
        (some (hooks "_emit_outcome")) ("client_id" ∷ "tier" ∷ []) "assemble the onboarding record"
        ""
    ∷ []

unfoldable pub kyc_onboarding : (String → Hook) → Template
unfolding kyc_steps
kyc_onboarding hooks = record {
  name = "kyc-onboarding";
  steps = kyc_steps hooks;
  prompt_refs = "kyc-entities@1" ∷ "kyc-adjudicate@1" ∷ [];
  doc = "Screen a prospective client and assign an eligibility tier.";
  params =
      typed (record {
        name = "client_id";
        type = string;
        required = true;
        doc = "Client to screen — see data/clients.json";
        default = none;
      })
      ∷ [];
  requires = [];
  publishes = "outcome";
  result_schema = "onboarding-outcome";
}
