-- ===== src/Engine/Runner/Lifecycle/Progress.antt =====
-- The parts of `_stream` that come before its last event only make progress.
use navigator_orchestrator_a.Prelude.{
  ℕ, String, false, ◌≡◌, refl, sym, ◌∙◌, ap, Option, none, some, [], ◌∷◌, ◌++◌, append_assoc,
  append-nil, arith, All-append, is_some, Dict, Value,
}
use navigator_orchestrator_a.Engine.Events.{Event}
use navigator_orchestrator_a.Engine.State.{Result, ok, err}
use navigator_orchestrator_a.Engine.Policy.{Policy}
use navigator_orchestrator_a.Engine.Runner.Actions.{
  Runner, World, Outcome, done, threw, closed, Act, ◌>>=◌, lift, emit, write_log, report, lookup,
  store_body, client_for, continue, is_closed,
}
use navigator_orchestrator_a.Engine.Runner.Lifecycle.{
  Ready, Going, Ended, IsProgress, state_of, SteadyAt, EndsAt, Steady, Finishing,
}

-- Nothing was sent.
pub quiet :
    (run_id : String) (w w' : World)
    → Ready run_id w
    → w'.sent ≡ w.sent
    → w'.patience ≡ w.patience
    → state_of run_id w' ≡ state_of run_id w
    → Going run_id w w'
quiet run_id w w' h s p st = record {
  between = [];
  sent = s ∙ sym (append-nil w.sent);
  progress = tt;
  ready = record { patient = p ∙ h.patient; known = ap is_some st ∙ h.known };
}

pub Going-trans :
    (run_id : String) (u v w : World) → Going run_id u v → Going run_id v w → Going run_id u w
Going-trans run_id u v w a b = record {
  between = a.between ++ b.between;
  sent = b.sent ∙ rw a.sent (append_assoc u.sent a.between b.between);
  progress = All-append (IsProgress run_id) a.between b.between a.progress b.progress;
  ready = b.ready;
}

pub Going-Ended :
    (run_id : String) (u v w : World) → Going run_id u v → Ended run_id v w → Ended run_id u w
Going-Ended run_id u v w a b = record {
  between = a.between ++ b.between;
  last = b.last;
  sent = b.sent ∙ rw a.sent (ap (λ l. l ++ b.last ∷ []) (append_assoc u.sent a.between b.between));
  progress = All-append (IsProgress run_id) a.between b.between a.progress b.progress;
  is_last = b.is_last;
}

module _ (run_id : String) where
  SteadyAt-after :
      {A : Type 0} (u v : World) (r : Outcome A) (w : World)
      → Going run_id u v
      → SteadyAt run_id v r w
      → SteadyAt run_id u r w
  SteadyAt-after u v (done a) w g s = Going-trans run_id u v w g s
  SteadyAt-after u v (threw e) w g s = Going-trans run_id u v w g s
  SteadyAt-after u v closed w g s = s

  EndsAt-after :
      {A : Type 0} (u v : World) (r : Outcome A) (w : World)
      → Going run_id u v
      → EndsAt run_id v r w
      → EndsAt run_id u r w
  EndsAt-after u v (done a) w g s = Going-Ended run_id u v w g s
  EndsAt-after u v (threw e) w g s = Going-trans run_id u v w g s
  EndsAt-after u v closed w g s = s

  SteadyAt-continue :
      {A B : Type 0} (f : A → Act B) (w : World) (r : Outcome A) (v : World)
      → SteadyAt run_id w r v
      → ((a : A) → Steady run_id (f a))
      → SteadyAt run_id w (continue f r v).0 (continue f r v).1
  SteadyAt-continue f w (done a) v g hf = SteadyAt-after w v (f a v).0 (f a v).1 g (hf a v g.ready)
  SteadyAt-continue f w (threw e) v g hf = g
  SteadyAt-continue f w closed v g hf = g

  pub EndsAt-continue :
      {A B : Type 0} (f : A → Act B) (w : World) (r : Outcome A) (v : World)
      → SteadyAt run_id w r v
      → ((a : A) → Finishing run_id (f a))
      → EndsAt run_id w (continue f r v).0 (continue f r v).1
  EndsAt-continue f w (done a) v g hf = EndsAt-after w v (f a v).0 (f a v).1 g (hf a v g.ready)
  EndsAt-continue f w (threw e) v g hf = g
  EndsAt-continue f w closed v g hf = g

  pub Steady-bind :
      {A B : Type 0} (m : Act A) (f : A → Act B)
      → Steady run_id m
      → ((a : A) → Steady run_id (f a))
      → Steady run_id (m >>= f)
  Steady-bind m f hm hf w h = SteadyAt-continue f w (m w).0 (m w).1 (hm w h) hf

  pub Finishing-bind :
      {A B : Type 0} (m : Act A) (f : A → Act B)
      → Steady run_id m
      → ((a : A) → Finishing run_id (f a))
      → Finishing run_id (m >>= f)
  Finishing-bind m f hm hf w h = EndsAt-continue f w (m w).0 (m w).1 (hm w h) hf

  -- An action that is not closed and sends nothing.
  pub silent :
      {A : Type 0} (w : World) (r : Outcome A) (w' : World)
      → Ready run_id w
      → is_closed r ≡ false
      → (w'.sent ≡ w.sent) × (w'.patience ≡ w.patience) × (w'.runs ≡ w.runs)
      → SteadyAt run_id w r w'
  unfolding state_of
  silent w (done a) w' h c e = quiet run_id w w' h e.0 e.1 (rw e.2 refl)
  silent w (threw x) w' h c e = quiet run_id w w' h e.0 e.1 (rw e.2 refl)
  silent w closed w' h c e = absurd (ground arith)

  pub Steady-lift : {A : Type 0} (r : Result A) → Steady run_id (lift r)
  Steady-lift (ok a) w h = silent w (done a) w h refl (refl, refl, refl)
  Steady-lift {A = A} (err e) w h = silent {A = A} w (threw e) w h refl (refl, refl, refl)

  pub Steady-lookup : (runner : Runner) (key : Option String) → Steady run_id (lookup runner key)
  unfolding lookup
  Steady-lookup runner none w h =
      silent {A = Option (Dict Value)} w (done none) w h refl (refl, refl, refl)
  Steady-lookup runner (some key) w h =
      let m = lookup runner (some key) w in
      silent w m.0 m.1 h (ground arith) (ground arith, ground arith, ground arith)

  pub Steady-store_body :
      (runner : Runner) (key : Option String) (body : Dict Value) (ttl : Option ℕ)
      → Steady run_id (store_body runner key body ttl)
  unfolding store_body
  Steady-store_body runner none body ttl w h = silent w (done tt) w h refl (refl, refl, refl)
  Steady-store_body runner (some key) body ttl w h =
      let m = store_body runner (some key) body ttl w in
      silent w m.0 m.1 h (ground arith) (ground arith, ground arith, ground arith)

  pub Steady-client_for :
      (runner : Runner) (policy : Policy) → Steady run_id (client_for runner policy)
  unfolding client_for
  Steady-client_for runner policy w h =
      let m = client_for runner policy w in
      silent w m.0 m.1 h (ground arith) (ground arith, ground arith, ground arith)

  pub Steady-write_log :
      (runner : Runner) (workflow : String) (e : Event)
      → Steady run_id (write_log runner workflow e)
  unfolding write_log
  Steady-write_log runner workflow e w h =
      let m = write_log runner workflow e w in
      silent w m.0 m.1 h (ground arith) (ground arith, ground arith, ground arith)

  Steady-emit : (e : Event) → IsProgress run_id e → Steady run_id (emit e)
  unfolding emit state_of
  Steady-emit e p w h =
      rw (h.patient, emit)
        (record {
          between = e ∷ [];
          sent = refl;
          progress = (p, tt);
          ready = record { patient = h.patient; known = h.known };
        })

  pub Steady-report :
      (runner : Runner) (workflow : String) (e : Event)
      → IsProgress run_id e
      → Steady run_id (report runner workflow e)
  unfolding report
  Steady-report runner workflow e p =
      Steady-bind (write_log runner workflow e) (λ u. emit e) (Steady-write_log runner workflow e)
        (λ u. Steady-emit e p)
