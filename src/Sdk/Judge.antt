-- ===== src/Sdk/Judge.antt =====
-- sdk/judge.py: decision gates that ask a model. The model, `json.loads`, `json.dumps` and the
-- `str` of a JSON container are arguments.
pub mod Control
mod Tests
use Prim.Native.Char.{code}
use navigator_orchestrator_a.Prelude.{
  ℕ, zero, suc, ◌+◌, String, Bool, true, false, not, ◌&&◌, if◌then◌else◌, ◌==◌, Option, none, some,
  List, [], ◌∷◌, map, take, any, select, Dict, get, put, merge, keys, Value, null, bool, num, nat,
  str, arr, obj, other, Items, nil, cons, Fields, items_of, field_names, get_field, fields_of,
  at_keys, json_type, truthy, show_nat, non_empty, one_of, join, join_all, repr, rstrip, strip,
  lower_is, split_at, truncate, sort_by, str_lt,
}
use navigator_orchestrator_a.Sdk.Context.{
  Ctx, Exn, blocked, raised, judge_error, type_error, message, type_name, note, runtime_error,
  Result, ok, err,
}

pub data OnFail : Type 0 where
  block warn : OnFail

pub data Answer : Type 0 where
  pass fail : Answer

pub record Verdict : Type 0 where
  pub verdict : Answer
  pub reason : String
  pub offending : List String

unfoldable pub passed : Verdict → Bool
passed v = elim v.verdict [ pass ↦ true | fail ↦ false ]

answer_name : Answer → String
answer_name pass = "pass"
answer_name fail = "fail"

is_given : List String → Bool
is_given [] = false
is_given (w ∷ ws) = true

-- Verdict.summary
unfoldable pub summary : Verdict → Dict Value
unfolding answer_name is_given put
summary v =
    let plain : Dict Value = ("verdict", str (answer_name v.verdict)) ∷ [] in
    let reasoned =
      if non_empty v.reason then put plain "reason" (str (truncate 300 v.reason)) else plain in
    if is_given v.offending
    then put reasoned "offending" (arr (items_of (map (λ o. str o) (take 10 v.offending))))
    else reasoned

pub record Judge : Type 0 where
  pub id : String
  pub version : ℕ
  pub prompt : String
  pub applies_to : List String
  pub inputs : List String
  pub before : List String
  pub after : List String
  pub on_fail : OnFail

unfoldable pub ref : Judge → String
ref j = join j.id (join "@" (show_nat j.version))

unfoldable pub anchors : Judge → List String
unfolding is_given
anchors j = if is_given j.before then j.before else j.after

unfoldable pub node_name : Judge → String
node_name j = join "judge-" j.id

unfoldable pub judges_for : List Judge → String → List String → List Judge
unfolding ref
judges_for judges template_name skip =
    select (λ j. one_of template_name j.applies_to && not (one_of (ref j) skip)) judges

-- The reply of the model to the n-th ask of a prompt, and the library functions on JSON.
pub record Model : Type 0 where
  pub ask : ℕ → String → Result String
  pub loads : String → Result Value
  pub dumps : Value → String
  pub show : Value → String

judge_raises : String → Exn
judge_raises = raised judge_error "JudgeError"

unfoldable pub resolve_input : Dict Value → String → Option Value
unfolding at_keys fields_of
resolve_input pool path = at_keys (split_at b'.' path) (obj (fields_of pool))

module _ (model : Model) where
  rendered : Value → String
  rendered (str s) = s
  rendered v = model.dumps v

  blocks : Judge → Dict Value → List String → Result (List String)
  unfolding rendered judge_raises ref resolve_input
  blocks j pool [] = ok []
  blocks j pool (path ∷ paths) = elim (resolve_input pool path) [
    | none ↦ err (
        judge_raises (
          join "judge " (
            join (ref j) (
              join " declares input " (
                join (repr path) (
                  join ", which the run has not produced; available: " (
                    if is_given (keys pool)
                    then join_all ", " (sort_by str_lt (keys pool))
                    else "nothing")))))))
    | some v ↦ elim (blocks j pool paths) [
      | err e ↦ err e
      | ok rest ↦ ok (join "### " (join path (join "\n" (rendered v))) ∷ rest)
    ]
  ]

  unfoldable pub render_inputs : Judge → Dict Value → Result String
  unfolding blocks is_given
  render_inputs j pool = elim (blocks j pool j.inputs) [
    | err e ↦ err e
    | ok bs ↦ ok (join_all "\n\n" bs)
  ]

  unfoldable pub build_prompt : Judge → Dict Value → Result String
  unfolding render_inputs
  build_prompt j pool = elim (render_inputs j pool) [
    | err e ↦ err e
    | ok evidence ↦ ok (
        join (rstrip j.prompt) (
          join "\n\nHere is what you are judging:\n\n" (
            join evidence (
              join "\n\nReply with JSON and nothing else, in exactly this shape:\n"
                "{\"verdict\": \"pass\" | \"fail\", \"reason\": \"<one sentence>\", \"offending\": [\"<ingredient>\", ...]}\n"))))
  ]

  -- str(value)
  text_of : Value → String
  text_of (str s) = s
  text_of v = model.show v

  texts : Items → List String
  unfolding text_of
  texts nil = []
  texts (cons v vs) = text_of v ∷ texts vs

  -- tuple(str(o) for o in offending), after the tests on its type
  offenders : Option Value → Result (List String)
  unfolding texts field_names
  offenders none = ok []
  offenders (some v) = if not (truthy v) then ok [] else elim v [
    | str s ↦ ok (s ∷ [])
    | arr vs ↦ ok (texts vs)
    | obj fs ↦ ok (field_names fs)
    | _ ↦ err (raised type_error "TypeError" "object is not iterable")
  ]

  -- data.get(key, "") as text
  text_at : Fields → String → String
  unfolding text_of get_field
  text_at fs key = elim (get_field fs key) [ none ↦ "" | some v ↦ text_of v ]

  -- repr(data.get("verdict"))
  shown : Option Value → String
  shown none = "None"
  shown (some (str s)) = repr s
  shown (some v) = model.show v

  read_verdict : Fields → Result Verdict
  unfolding text_at offenders judge_raises shown
  read_verdict fs =
      let raw = strip (text_at fs "verdict") in
      let reason = strip (text_at fs "reason") in
      if lower_is raw "pass"
      then elim (offenders (get_field fs "offending")) [
        | ok os ↦ ok (record { verdict = pass; reason = reason; offending = os })
        | err e ↦ err e
      ]
      else if lower_is raw "fail"
      then elim (offenders (get_field fs "offending")) [
        | ok os ↦ ok (record { verdict = fail; reason = reason; offending = os })
        | err e ↦ err e
      ]
      else err (
          judge_raises
            (join "verdict must be 'pass' or 'fail', got " (shown (get_field fs "verdict"))))

-- The longest beginning that ends in a closing brace.
through_close : String → Option String
through_close String.[] = none
through_close (String.◌∷◌ c s) = elim (through_close s) [
  | some t ↦ some (String.◌∷◌ c t)
  | none ↦ if code c == b'}' then some (String.◌∷◌ c String.[]) else none
]

-- JSON_BLOB.search(reply): from the first opening brace to the last closing one
unfoldable pub json_blob : String → Option String
unfolding through_close
json_blob String.[] = none
json_blob (String.◌∷◌ c s) =
    let later = json_blob s in
    if code c == b'{'
    then elim (through_close s) [ none ↦ none | some t ↦ some (String.◌∷◌ c t) ]
    else later

module _ (model : Model) where
  unfoldable pub parse_verdict : String → Result Verdict
  unfolding read_verdict json_blob judge_raises json_type
  parse_verdict reply = elim (json_blob reply) [
    | none ↦
        err
          (judge_raises (join "no JSON object in the reply: " (repr (truncate 200 (strip reply)))))
    | some blob ↦ elim (model.loads blob) [
      | err e ↦ err (
          judge_raises (
            join "reply is not valid JSON ("
              (join (message e) (join "): " (repr (truncate 200 blob))))))
      | ok v ↦ elim v [
        | obj fs ↦ read_verdict model fs
        | another ↦ err (judge_raises (join "expected a JSON object, got " (json_type another)))
      ]
    ]
  ]

  is_judge_error : Exn → Bool
  is_judge_error (raised judge_error n m) = true
  is_judge_error _ = false

  -- One ask, and the reading of its reply.
  unfoldable pub asked : ℕ → String → Result Verdict
  unfolding parse_verdict
  asked attempt prompt = elim (model.ask attempt prompt) [
    | err e ↦ err e
    | ok reply ↦ parse_verdict reply
  ]

  -- ctx.note(…: unreadable verdict …)
  unfoldable pub unreadable : Judge → ℕ → Exn → Ctx → Ctx
  unfolding note ref
  unreadable j attempt e c =
      note
        (join "judge " (
          join (ref j) (
            join ": unreadable verdict (attempt "
              (join (show_nat (attempt + 1)) (join ") - " (message e))))))
        c

  -- The loop `for attempt in range(PARSE_RETRIES + 1)`: a verdict, or the last failure.
  unfoldable pub ask_loop : Judge → String → ℕ → ℕ → Exn → Ctx → Result Verdict × Ctx
  unfolding asked is_judge_error unreadable
  ask_loop j prompt zero attempt failure c = (err failure, c)
  ask_loop j prompt (suc left) attempt failure c = elim (asked attempt prompt) [
    | ok v ↦ (ok v, c)
    | err e ↦ elim (is_judge_error e) [
      | false ↦ (err e, c)
      | true ↦ ask_loop j prompt left (attempt + 1) e (unreadable j attempt e c)
    ]
  ]

  on_fail_name : OnFail → String
  on_fail_name block = "block"
  on_fail_name warn = "warn"

  -- _no_verdict
  unfoldable pub no_verdict : Judge → Exn → Ctx → Result Verdict × Ctx
  unfolding on_fail_name note ref merge
  no_verdict j cause c =
      let c' = record c {
        detail = merge c.detail (
            ("judge", str (ref j))
            ∷ ("verdict", str "none")
            ∷ ("on_fail", str (on_fail_name j.on_fail))
            ∷ ("error", str (type_name cause))
            ∷ []);
      } in
      elim j.on_fail [
        | warn ↦ (
          ok (record {
            verdict = fail;
            reason = join "no verdict: " (message cause);
            offending = [];
          }),
          note
              (join "judge " (
                join (ref j)
                  (join ": no verdict (" (join (message cause) ") - continuing, on_fail=warn"))))
              c',
        )
        | block ↦ (
          err (
              blocked (
                join "judge " (
                  join (ref j) (
                    join " could not reach a verdict, so nothing is approved: " (message cause))))),
          c',
        )
      ]

  -- reason, and the offenders in brackets
  explained : Verdict → String
  explained v =
      let detail = if non_empty v.reason then v.reason else "no reason given" in
      if is_given v.offending
      then join detail (join " (" (join (join_all ", " v.offending) ")"))
      else detail

  -- What run_judge makes of a verdict.
  unfoldable pub settle : Judge → Verdict → Ctx → Result Verdict × Ctx
  unfolding on_fail_name note ref explained passed answer_name is_given merge
  settle j v c =
      let c' = record c {
        detail = merge c.detail (
            ("judge", str (ref j))
            ∷ ("verdict", str (answer_name v.verdict))
            ∷ ("on_fail", str (on_fail_name j.on_fail))
            ∷ []);
      } in
      if passed v then (ok v, note (join "judge " (join (ref j) ": pass")) c') else elim j.on_fail [
        | warn ↦ (
          ok v,
          note (join "judge " (join (ref j) (join ": FAIL (warn only) - " (explained v)))) c',
        )
        | block ↦ (
          err (blocked (join "judge " (join (ref j) (join " refused this: " (explained v))))),
          c',
        )
      ]

  unfoldable pub run_judge : Judge → Ctx → Dict Value → Result Verdict × Ctx
  unfolding build_prompt ask_loop no_verdict settle
  run_judge j c pool = elim (build_prompt model j pool) [
    | err e ↦ (err e, c)
    | ok prompt ↦
        let (r, c') = ask_loop j prompt 2 0 (runtime_error "no verdict") c in
        elim r [ err e ↦ no_verdict j e c' | ok v ↦ settle j v c' ]
  ]
