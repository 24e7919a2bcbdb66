-- ===== src/Agent/Task/Ends.antt =====
-- What a whole task does.
use strange_claw.Prelude.{
  ℕ, suc, ◌+◌, ◌≡◌, refl, sym, ap, ◌∙◌, Bool, true, false, Option, none, some, [], ◌++◌, arith,
}
use strange_claw.Text.{Text, codes, text_eq}
use strange_claw.Value.{
  Value, null, boolean, int, float, str, list, tuple, dict, text, Dict, get_field,
}
use strange_claw.Agent.Run.{
  Runtime, Loop, agent_error, runtime_error, other_error, blocked, Answer, returned, failed, pure,
  catch_agent, ◌>>=◌, ◌>>◌, send,
}
use strange_claw.Agent.Run.Triple.{
  Post, Triple, Triple-pure, Triple-fail, Triple-bind, Triple-then, Triple-weaken,
  Triple-catch_agent,
}
use strange_claw.Agent.Log.{On, Within, Within_more, Within_done, send-Triple}
use strange_claw.Agent.Output.{build_done_event}
use strange_claw.Agent.Output.Done.{build_done_event-type}
use strange_claw.Agent.Task.{
  resumed_plan, resume_context, plan_or, End, finished, text_of, after_planning, run_task,
  goal_text, guarded, run_task_guarded, set_up, load_integrations,
}
use strange_claw.Agent.Task.Setup.{set_up-Triple, load_integrations-Triple, resume_context-Triple}
use strange_claw.Agent.Task.Course.{AtEnd, plan_or-Triple, after_planning-Ends}

module _ {W : Type 0} (rt : Runtime W) (strict : Bool) (task : Dict)
    (reviewed : strict ≡ true → get_field "approval_mode" task ≡ some (text "review"))
    (fresh : strict ≡ true → resumed_plan rt (get_field "state" task) ≡ none) (runs d : ℕ) where
  abbrev pub Start : Loop W → Type 0
  Start = On (Within strict runs d)

  abbrev pub AfterTask : End → Loop W → Type 0
  AfterTask end = On (AtEnd rt strict (runs + rt.max_iterations) d end)

  abbrev pub Broken : Loop W → Type 0
  Broken = On (Within strict (runs + rt.max_iterations) d)

  broken : (s : Loop W) → Start s → Broken s
  broken s w = Within_more strict runs (runs + rt.max_iterations) d s.trace (omega arith) w

  is_text : (m : Text) → some (str m) ≡ some (text "review") → text_eq m (codes "review") ≡ true
  unfolding text_eq
  is_text m e = ap text_is e
    where
      text_is : Option Value → Bool
      text_is (some (str t)) = text_eq t (codes "review")
      text_is _ = false

  planned-Ends :
      (goal mode : Text)
      → (strict ≡ true → text_eq mode (codes "review") ≡ true)
      → Triple Start
          (do
            set_up rt task
            load_integrations rt
            plan ← resume_context rt task
            planned ← catch_agent (plan_or rt plan goal mode)
            after_planning rt goal mode plan planned)
          AfterTask
          Broken
  planned-Ends goal mode says =
      Triple-then _ _
        (Triple-weaken _ (set_up-Triple rt (Within strict runs d) task) (λ s w. w) (λ a s w. w)
          broken)
        λ _.
          Triple-then _ _
            (Triple-weaken _ (load_integrations-Triple rt (Within strict runs d)) (λ s w. w)
              (λ a s w. w) broken)
            λ _.
              Triple-bind _ _
                (Triple-weaken _ (resume_context-Triple rt (Within strict runs d) task) (λ s w. w)
                  (λ a s w. w) broken)
                λ plan. record {
                  at = λ s p.
                      (Triple-bind _ _
                          (Triple-weaken _
                            (Triple-catch_agent _ (
                              plan_or-Triple rt strict mode says d runs plan goal
                                (λ on. p.0 ∙ fresh on)))
                            (λ s w. w) (λ a s w. w) broken)
                          (after_planning-Ends rt strict mode says d runs goal plan)).at
                        s p.1;
                }

  with_mode :
      (goal : Text) (o : Option Value)
      → get_field "approval_mode" task ≡ o
      → Triple Start
          (do
            mode ← text_of rt "approval_mode" o
            set_up rt task
            load_integrations rt
            plan ← resume_context rt task
            planned ← catch_agent (plan_or rt plan goal mode)
            after_planning rt goal mode plan planned)
          AfterTask
          Broken
  with_mode goal o e =
      Triple-bind {Q = λ m s. (o ≡ some (str m)) × Start s} _ _ (text_of-Triple o) λ mode. record {
        at = λ s p.
            (planned-Ends goal mode (λ on. is_text mode (sym p.0 ∙ sym e ∙ reviewed on))).at s p.1;
      }
    where
      text_of-Triple :
          (v : Option Value)
          → Triple Start (text_of rt "approval_mode" v) (λ m s. (v ≡ some (str m)) × Start s) Broken
      text_of-Triple (some (str m)) = Triple-pure m (λ s w. (refl, w))
      text_of-Triple none = Triple-fail _ broken
      text_of-Triple (some null) = Triple-fail _ broken
      text_of-Triple (some (boolean b)) = Triple-fail _ broken
      text_of-Triple (some (int n)) = Triple-fail _ broken
      text_of-Triple (some (float n)) = Triple-fail _ broken
      text_of-Triple (some (list xs)) = Triple-fail _ broken
      text_of-Triple (some (tuple xs)) = Triple-fail _ broken
      text_of-Triple (some (dict xs)) = Triple-fail _ broken

  goal-Triple : (v : Option Value) → Triple Start (text_of rt "text" v) (λ m. Start) Broken
  goal-Triple (some (str m)) = Triple-pure m (λ s w. w)
  goal-Triple none = Triple-fail _ broken
  goal-Triple (some null) = Triple-fail _ broken
  goal-Triple (some (boolean b)) = Triple-fail _ broken
  goal-Triple (some (int n)) = Triple-fail _ broken
  goal-Triple (some (float n)) = Triple-fail _ broken
  goal-Triple (some (list xs)) = Triple-fail _ broken
  goal-Triple (some (tuple xs)) = Triple-fail _ broken
  goal-Triple (some (dict xs)) = Triple-fail _ broken

  run_task-Ends : Triple Start (run_task rt task) AfterTask Broken
  unfolding run_task
  run_task-Ends =
      Triple-bind _ _ (goal-Triple (get_field "text" task))
        λ goal. with_mode goal (get_field "approval_mode" task) refl

  internal-Post :
      (s : Loop W) (message : Text)
      → Broken s
      → Post AfterTask Broken (
          (do
            send (
                build_done_event rt s
                  (goal_text rt (get_field "text" task))
                  null
                  []
                  false
                  (codes "Internal error: " ++ message))
            pure finished)
            s)
  internal-Post s message w =
      (Triple-then {P = Broken} {E = Broken} {R = AfterTask} _ _
          (send-Triple (Within strict (runs + rt.max_iterations) d)
            (Within strict (runs + rt.max_iterations) (suc d)) _
            (λ t.
              Within_done strict (runs + rt.max_iterations) d _ t (
                build_done_event-type rt s (goal_text rt (get_field "text" task)) null [] false _)))
          λ _. Triple-pure finished (λ s w. w)).at
        s w

  guarded-Post :
      (x : Answer End × Loop W)
      → Post AfterTask Broken x
      → Post AfterTask Broken (guarded rt task x)
  unfolding guarded
  guarded-Post (returned end, s) w = w
  guarded-Post (failed (agent_error e), s) w = internal-Post s e w
  guarded-Post (failed (runtime_error e), s) w = internal-Post s e w
  guarded-Post (failed (other_error e), s) w = internal-Post s e w
  guarded-Post (failed blocked, s) w = w

  pub run_task_guarded-Ends :
      (s : Loop W) → Start s → Post AfterTask Broken (run_task_guarded rt task s)
  unfolding run_task_guarded
  run_task_guarded-Ends s w = guarded-Post _ (run_task-Ends.at s w)
