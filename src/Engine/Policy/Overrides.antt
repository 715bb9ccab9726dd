-- ===== src/Engine/Policy/Overrides.antt =====
-- What a per-request override may do to the deployment's policy, and the parts of a model's name.
use navigator_orchestrator_a.Prelude.{
  String, true, ◌&&◌, ◌≡◌, subst, Option, none, some, List, [], ◌∷◌, arith, if◌then◌else◌, All,
  or_else, join, join_all, split_at,
}
use navigator_orchestrator_a.Prelude.Splitting.{split_at-cons, join_all-split_at, split_at-single}
use navigator_orchestrator_a.Engine.State.{ok, err, raised}
use navigator_orchestrator_a.Engine.Policy.{
  Policy, Float, temperature_ok, has_prefix, satisfies, construct, provider, model_id,
  with_overrides,
}

-- A policy that satisfies the constraints takes an override exactly when the new model names its
-- provider and the new temperature lies in its range; then only these two fields are changed, each
-- if it is given, and otherwise the constructor refuses.
pub with_overrides_lem :
    (base : Policy) (model : Option String) (temperature : Option Float)
    → satisfies base ≡ true
    → with_overrides base model temperature ≡ (
        if (elim model [ none ↦ true | some m ↦ has_prefix m ])
          && (elim temperature [ none ↦ true | some t ↦ temperature_ok t ])
        then ok (record base {
          model = or_else model base.model;
          temperature = elim temperature [ none ↦ base.temperature | some t ↦ some t ];
        })
        else err (raised "ValidationError" ""))
unfolding with_overrides construct satisfies
with_overrides_lem base model temperature h = ground arith

model_parts :
    (p : Policy) (head : String) (tail : List String)
    → has_prefix p.model ≡ true
    → split_at b':' p.model ≡ head ∷ tail
    → (join (provider p) (join ":" (model_id p)) ≡ p.model)
      × (split_at b':' (provider p) ≡ provider p ∷ [])
unfolding provider model_id has_prefix
model_parts p head [] h q = absurd (ground arith)
model_parts p head (t ∷ ts) h q =
    let whole : join_all ":" (head ∷ t ∷ ts) ≡ p.model =
      subst (λ ps. join_all ":" ps ≡ p.model) q (join_all-split_at ":" p.model) in
    let single : All (λ s. split_at b':' s ≡ s ∷ []) (head ∷ t ∷ ts) =
      subst (λ ps. All (λ s. split_at b':' s ≡ s ∷ []) ps) q (split_at-single b':' p.model) in
    rw (q, provider, model_id) (whole, single.0)

-- The provider and the model id of a policy that names its provider are its model, split at the
-- first colon: put together with a colon they are the model again, and the provider has no part
-- of the id even when the id has colons of its own.
pub provider-model_id :
    (p : Policy)
    → has_prefix p.model ≡ true
    → (join (provider p) (join ":" (model_id p)) ≡ p.model)
      × (split_at b':' (provider p) ≡ provider p ∷ [])
unfolding provider model_id has_prefix
provider-model_id p h =
    let (head, tail, q) = split_at-cons b':' p.model in model_parts p head tail h q
