-- ===== src/Agent/Task/Setup.antt =====
-- What comes before the planning of a task leaves the trace alone.
use strange_claw.Prelude.{ℕ, ◌≡◌, refl, sym, subst, Option, none, some, List}
use strange_claw.Text.{Text}
use strange_claw.Value.{Value, null, boolean, int, float, str, list, tuple, dict, Dict, get_field}
use strange_claw.Agent.Run.{Called, answered, service_error, call_crashed, Runtime, Loop, Action}
use strange_claw.Agent.Run.Triple.{Triple}
use strange_claw.Agent.Log.{On, Triple_quiet}
use strange_claw.Agent.Task.{
  integrations_of, load_with, load_integrations, with_deadline, set_up, resumed_plan, resumed,
  resume_context,
}

module _ {W : Type 0} (rt : Runtime W) where
  with_deadline-trace : (o : Option ℕ) (s : Loop W) → (with_deadline rt o s).trace ≡ s.trace
  with_deadline-trace none s = refl
  with_deadline-trace (some n) s = refl

  pub set_up-Triple :
      (P : List Action → Type 0) (task : Dict) → Triple (On P) (set_up rt task) (λ _. On P) (On P)
  unfolding set_up
  set_up-Triple P task = Triple_quiet P _ (λ s. with_deadline-trace rt.task_timeout _)

  integrations_of-trace : (x : Called × W) (s : Loop W) → (integrations_of rt x s).1.trace ≡ s.trace
  integrations_of-trace (answered payload, w) s = refl
  integrations_of-trace (service_error e, w) s = refl
  integrations_of-trace (call_crashed e, w) s = refl

  load_with-trace :
      (o : Option (Text → Dict → W → Called × W)) (s : Loop W)
      → (load_with rt o s).1.trace ≡ s.trace
  unfolding load_with
  load_with-trace none s = refl
  load_with-trace (some call) s = integrations_of-trace _ s

  pub load_integrations-Triple :
      (P : List Action → Type 0) → Triple (On P) (load_integrations rt) (λ _. On P) (On P)
  unfolding load_integrations
  load_integrations-Triple P = Triple_quiet P _ (λ s. load_with-trace rt.call_broker s)

  resumed-trace : (o : Option Value) (s : Loop W) → (resumed rt o s).trace ≡ s.trace
  resumed-trace (some (dict state)) s = refl
  resumed-trace none s = refl
  resumed-trace (some null) s = refl
  resumed-trace (some (boolean b)) s = refl
  resumed-trace (some (int n)) s = refl
  resumed-trace (some (float n)) s = refl
  resumed-trace (some (str t)) s = refl
  resumed-trace (some (list xs)) s = refl
  resumed-trace (some (tuple xs)) s = refl

  pub resume_context-Triple :
      (P : List Action → Type 0) (task : Dict)
      → Triple
          (On P)
          (resume_context rt task)
          (λ o s. (o ≡ resumed_plan rt (get_field "state" task)) × On P s)
          (On P)
  unfolding resume_context
  resume_context-Triple P task = record {
    at = λ s p. (refl, subst P (sym (resumed-trace (get_field "state" task) s)) p);
  }
