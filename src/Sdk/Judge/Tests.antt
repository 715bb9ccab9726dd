-- ===== src/Sdk/Judge/Tests.antt =====
-- A judge that passes, one that refuses, and the theorems there.
use navigator_orchestrator_a.Prelude.{
  show_nat, String, ◌≡◌, refl, true, [], ◌∷◌, str, obj, fields_of, get_field,
}
use navigator_orchestrator_a.Sdk.Context.{Ctx, Exn, blocked, fresh_ctx, is_blocked, ok}
use navigator_orchestrator_a.Sdk.Judge.{
  block, Judge, Model, run_judge, build_prompt, render_inputs, asked, ask_loop, parse_verdict,
  json_blob, settle, passed, ref,
}
use navigator_orchestrator_a.Sdk.Judge.Control.{run_judge-err}

-- A model that gives the same answer to everything.
abbrev says : String → Model
says answer = record {
  ask = λ n prompt. ok "{}";
  loads = λ blob. ok (obj (fields_of (("verdict", str answer) ∷ ("reason", str "r") ∷ [])));
  dumps = λ v. "";
  show = λ v. "";
}

abbrev gatekeeper : Judge
gatekeeper = record {
  id = "nutrition";
  version = 1;
  prompt = "Judge.";
  applies_to = "kyc" ∷ [];
  inputs = [];
  before = "draft" ∷ [];
  after = [];
  on_fail = block;
}

abbrev start : Ctx
start = fresh_ctx [] true

abbrev refusal : Exn
refusal = blocked "judge nutrition@1 refused this: r"

abbrev question : String
question =
    "Judge.\n\nHere is what you are judging:\n\n\n\nReply with JSON and nothing else, in exactly this shape:\n{\"verdict\": \"pass\" | \"fail\", \"reason\": \"<one sentence>\", \"offending\": [\"<ingredient>\", ...]}\n"

run_judge-err_example : (is_blocked refusal ≡ true) × (gatekeeper.on_fail ≡ block)
unfolding run_judge build_prompt render_inputs asked ask_loop parse_verdict json_blob settle passed
    get_field show_nat ref
run_judge-err_example = run_judge-err (says "fail") gatekeeper start [] question refusal refl refl
