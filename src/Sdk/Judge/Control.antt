-- ===== src/Sdk/Judge/Control.antt =====
-- What a judge's verdict means for the run: nothing is approved because something went wrong.
use navigator_orchestrator_a.Prelude.{ℕ, ◌<◌, String, ◌≡◌, true, arith, inl, inr, Dict, Value}
use navigator_orchestrator_a.Sdk.Context.{
  Result-cases, Ctx, Exn, is_blocked, runtime_error, ok, err,
}
use navigator_orchestrator_a.Sdk.Judge.{
  block, Verdict, passed, Judge, Model, asked, ask_loop, no_verdict, settle, build_prompt,
  run_judge,
}

-- One of the asks was answered by this verdict.
pub record Answered (model : Model) (prompt : String) (limit : ℕ) (v : Verdict) : Type 0 where
  pub attempt : ℕ
  pub in_time : attempt < limit
  pub reply : asked model attempt prompt ≡ ok v

-- What a judge that lets the run continue has said.
pub record Allowed (model : Model) (j : Judge) (pool : Dict Value) (v : Verdict) : Type 0 where
  -- a blocking judge lets nothing pass but a pass
  pub strict : j.on_fail ≡ block → passed v ≡ true
  -- and a pass is a reply of the model, to the judge's own prompt, that was read as one
  pub earned :
      passed v ≡ true
      → (prompt : String) × (build_prompt model j pool ≡ ok prompt) × Answered model prompt 2 v

-- Once its prompt could be built, a judge raises only `Blocked`, and only if it is declared with
-- `on_fail: block`: an error of the model, an unreadable reply or a failing verdict never stops a run
-- at a judge that only warns.
pub run_judge-err :
    (model : Model) (j : Judge) (c : Ctx) (pool : Dict Value) (prompt : String) (x : Exn)
    → build_prompt model j pool ≡ ok prompt
    → (run_judge model j c pool).0 ≡ err x
    → (is_blocked x ≡ true) × (j.on_fail ≡ block)
unfolding run_judge is_blocked settle no_verdict
run_judge-err model j c pool prompt x q e =
    elim (Result-cases (ask_loop model j prompt 2 0 (runtime_error "no verdict") c).0) [
      | inl (u, r) ↦ (ground arith, ground arith)
      | inr (y, r) ↦ (ground arith, ground arith)
    ]
