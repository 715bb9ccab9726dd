-- ===== src/Sdk/Calls.antt =====
-- The call of a service step in sdk/service.py: its placeholders, their check, and the substitution
-- of values of the pool. `show` is `str` of a list, a dict or any other object.
pub mod Quoting
pub mod Placeholders
pub mod Filling
mod Tests
use navigator_orchestrator_a.Prelude.{
  String, Bool, true, false, not, if◌then◌else◌, Option, none, some, List, [], ◌∷◌, ◌++◌, is_some,
  join, join_all, repr, split_at, sort_by, str_lt, one_of, Dict, get, keys, Value, null, bool, nat,
  num, str, arr, obj, other, Items, nil, cons, Fields, end, field, get_field, field_names, show_nat,
  fields_of, items_in, non_empty,
}
use navigator_orchestrator_a.Sdk.Context.{Exn, raised, value_error, Result, ok, err}
use navigator_orchestrator_a.Sdk.Templates.{Call}
use navigator_orchestrator_a.Sdk.Calls.Quoting.{quote}
use navigator_orchestrator_a.Sdk.Calls.Placeholders.{placeholder, find_all}

infixl 5 ◌>>=◌
abbrev pub ◌>>=◌ : {A B : Type 0} → Result A → (A → Result B) → Result B
ok a >>= f = f a
err e >>= f = err e

call_spec_error : String → Exn
call_spec_error = raised value_error "CallSpecError"

mutual
  pub names_in : Value → List String
  names_in (str s) = find_all s
  names_in (arr vs) = names_in_items vs
  names_in (obj fs) = names_in_fields fs
  names_in _ = []

  pub names_in_items : Items → List String
  names_in_items nil = []
  names_in_items (cons v vs) = names_in v ++ names_in_items vs

  pub names_in_fields : Fields → List String
  names_in_fields end = []
  names_in_fields (field k v fs) = names_in v ++ names_in_fields fs

-- A name may stand here more than once, where the source has a set.
unfoldable pub collect_placeholders : Call → List String
collect_placeholders call =
    find_all call.path ++ (names_in_fields (fields_of call.query) ++ names_in call.body)

-- name.split(".")[0]
unfoldable pub root_of : String → String
root_of name = elim (split_at b'.' name) [ [] ↦ "" | root ∷ tail ↦ root ]

-- The first name, in order, whose root is not declared.
unfoldable pub undeclared : List String → List String → Option String
unfolding root_of
undeclared allowed [] = none
undeclared allowed (name ∷ names) =
    let rest = undeclared allowed names in if one_of (root_of name) allowed then rest else some name

-- A part that mixes a placeholder with anything else.
mixed : List String → Bool
mixed [] = false
mixed (part ∷ parts) =
    let rest = mixed parts in
    if not (non_empty part)
    then rest
    else if is_some (placeholder part)
    then rest
    else elim (find_all part) [ [] ↦ rest | name ∷ names ↦ true ]

mutual
  unfolding mixed

  pub first_fragment : Value → Option String
  first_fragment (str s) = if mixed (split_at b'/' s) then some s else none
  first_fragment (arr vs) = fragment_of_items vs
  first_fragment (obj fs) = fragment_of_fields fs
  first_fragment _ = none

  pub fragment_of_items : Items → Option String
  fragment_of_items nil = none
  fragment_of_items (cons v vs) = elim (first_fragment v) [
    | some s ↦ some s
    | none ↦ fragment_of_items vs
  ]

  pub fragment_of_fields : Fields → Option String
  fragment_of_fields end = none
  fragment_of_fields (field k v fs) = elim (first_fragment v) [
    | some s ↦ some s
    | none ↦ fragment_of_fields fs
  ]

pub refuse_fragment : String → Option String → Result (Unit {0})
unfolding call_spec_error
refuse_fragment where_ none = ok tt
refuse_fragment where_ (some s) = err (
    call_spec_error (
      join where_ (
        join " contains " (
          join (repr s) (
            join
              ": a $name must be a whole value, not part of a larger string. A whole value can be "
              "encoded; a fragment cannot, because the structure is already decided (SPEC-NSP-006 §2.1)")))))

pub refuse_undeclared : List String → Option String → Result (Unit {0})
unfolding call_spec_error
refuse_undeclared allowed none = ok tt
refuse_undeclared allowed (some name) = err (
    call_spec_error (
      join "call refers to $" (
        join name (
          join ", which the step does not declare; add " (
            join (repr (root_of name)) (
              join " to kwargs (declared: "
                (join (elim allowed [ [] ↦ "none" | a ∷ as_ ↦ join_all ", " (a ∷ as_) ]) ")")))))))

unfoldable pub validate_call : Call → List String → Result (Unit {0})
unfolding refuse_undeclared refuse_fragment
validate_call call allowed =
    refuse_undeclared allowed (undeclared allowed (sort_by str_lt (collect_placeholders call)))
    >>= λ u. refuse_fragment "path" (first_fragment (str call.path)) >>= λ u.
        refuse_fragment "query" (fragment_of_fields (fields_of call.query)) >>= λ u.
        refuse_fragment "body" (first_fragment call.body)

missing_part : String → String → String → String → Exn
unfolding call_spec_error
missing_part name root part available = call_spec_error (
    join "$" (
      join name (
        join ": " (
          join (repr root) (join " has no " (join (repr part) (join " (" (join available ")"))))))))

-- The rest of the walk, from the value of the root.
select_from : String → String → List String → Value → Result Value
unfolding missing_part
select_from name root [] value = ok value
select_from name root (part ∷ parts) value = elim value [
  | obj fs ↦ elim (get_field fs part) [
    | some found ↦ select_from name root parts found
    | none ↦ err (missing_part name root part (join_all ", " (sort_by str_lt (field_names fs))))
  ]
  | _ ↦ err (missing_part name root part "not a mapping")
]

unfoldable pub value_of : Dict Value → String → Result Value
unfolding call_spec_error select_from
value_of pool name = elim (split_at b'.' name) [
  | [] ↦ err (call_spec_error "")
  | root ∷ tail ↦ elim (get pool root) [
    | none ↦
        err (
          call_spec_error (join "$" (join name " is not in the pool; no step has produced it yet")))
    | some value ↦ select_from name root tail value
  ]
]

-- str(value)
unfoldable pub text_of : (Value → String) → Value → String
text_of show null = "None"
text_of show (bool true) = "True"
text_of show (bool false) = "False"
text_of show (nat n) = show_nat n
text_of show (num s t) = s
text_of show (str s) = s
text_of show (arr vs) = show (arr vs)
text_of show (obj fs) = show (obj fs)
text_of show (other name t) = show (other name t)

-- The segments of the path, each placeholder quoted as one segment.
unfoldable pub fill : (Value → String) → Dict Value → List String → Result (List String)
unfolding value_of text_of
fill show pool [] = ok []
fill show pool (part ∷ parts) = elim (placeholder part) [
  | none ↦ fill show pool parts >>= λ rest. ok (part ∷ rest)
  | some name ↦ value_of pool name >>= λ value.
      fill show pool parts >>= λ rest. ok (quote (text_of show value) ∷ rest)
]

mutual
  unfolding value_of

  pub substitute : Dict Value → Value → Result Value
  substitute pool (str s) = elim (placeholder s) [
    | none ↦ ok (str s)
    | some name ↦ value_of pool name
  ]
  substitute pool (arr vs) = substitute_items pool vs >>= λ items. ok (arr items)
  substitute pool (obj fs) = substitute_fields pool fs >>= λ fields. ok (obj fields)
  substitute pool value = ok value

  pub substitute_items : Dict Value → Items → Result Items
  substitute_items pool nil = ok nil
  substitute_items pool (cons v vs) =
      substitute pool v >>= λ item. substitute_items pool vs >>= λ items. ok (cons item items)

  pub substitute_fields : Dict Value → Fields → Result Fields
  substitute_fields pool end = ok end
  substitute_fields pool (field k v fs) =
      substitute pool v >>= λ item. substitute_fields pool fs >>= λ fields. ok (field k item fields)

-- path.startswith("/"), by the parts of the path
starts_with_slash : List String → Bool
starts_with_slash (first ∷ second ∷ rest) = not (non_empty first)
starts_with_slash _ = false

-- Call.__post_init__, whose method is in capitals already
unfoldable pub make_call : Call → Result Call
unfolding call_spec_error starts_with_slash
make_call call =
    if starts_with_slash (split_at b'/' call.path)
    then ok call
    else err (call_spec_error (join "call path must start with '/', got " (repr call.path)))

-- The call that is sent; `public` is left at its default.
unfoldable pub interpolate : (Value → String) → Call → Dict Value → List String → Result Call
unfolding validate_call fill make_call
interpolate show call pool allowed = validate_call call allowed >>= λ u.
    fill show pool (split_at b'/' call.path) >>= λ segments.
    substitute_fields pool (fields_of call.query) >>= λ query. substitute pool call.body >>= λ body.
    make_call (record {
      method = call.method;
      path = join_all "/" segments;
      query = items_in query;
      body = body;
      optional_404 = call.optional_404;
      public = false;
    })
