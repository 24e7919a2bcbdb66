-- ===== src/Agent/Delegation/Bounds.antt =====
-- A request for a child stays within what the parent has and what the settings allow.
use strange_claw.Prelude.{
  ℕ, zero, suc, ◌≤◌, min, ◌≡◌, refl, Bool, true, false, not, Option, none, some, List, [], ◌∷◌,
  String, All, All-append, if◌then◌else◌, arith, Bool-cases, inl, inr,
}
use strange_claw.Prelude.Int.{pos, negsuc}
use strange_claw.Text.{Text, text_eq, elem, is_empty}
use strange_claw.Text.Equality.{text_eq_refl}
use strange_claw.Value.{
  Value, null, boolean, int, float, str, list, tuple, dict, Items, nil, cons, Dict, get_field,
}
use strange_claw.Python.{Platform}
use strange_claw.Broker.Checked.{
  Checked, ok, Yields, Yields-ok, Yields-value_error, Yields-bind, Yields-any,
}
use strange_claw.Text.Order.{sorted-All}
use strange_claw.Agent.Delegation.{
  Request, spawn_subagent, min_override, append_new, check_tools, validate_allowed_tools,
  clamp_subagent_int, read_pos_int_field, task_of, stripped_task, build_subagent_request,
}

-- The parent may hand out the tool: it has it.
abbrev pub Enabled : List Text → Text → Type 0
Enabled parent t = elem t parent ≡ true

All-elem_self :
    (parent us : List Text)
    → ((t : Text) → elem t us ≡ true → elem t parent ≡ true)
    → All (Enabled parent) us
unfolding elem
All-elem_self parent [] f = tt
All-elem_self parent (u ∷ us) f =
    (f u (ground (arith, text_eq_refl u)), All-elem_self parent us (λ t h. f t (ground arith)))

append_new-All :
    (P : Text → Type 0) (t : Text) (ts : List Text) → P t → All P ts → All P (append_new t ts)
append_new-All P t ts h hs = elim (Bool-cases (elem t ts)) [
  | inl old ↦ rw old hs
  | inr fresh ↦ rw fresh (All-append P ts (t ∷ []) hs (h, tt))
]

Yields-if {ℓ} :
    {A : Type 0} {P : A → Type ℓ} (b : Bool) (x y : Checked A)
    → (b ≡ true → Yields P x)
    → (b ≡ false → Yields P y)
    → Yields P (if b then x else y)
Yields-if true x y f g = f refl
Yields-if false x y f g = g refl

module _ {W : Type 0} (py : Platform W) (parent : List Text) where
  check_tools-Enabled :
      (result : List Text) (xs : Items)
      → All (Enabled parent) result
      → Yields (All (Enabled parent)) (check_tools py parent result xs)
  unfolding check_tools
  check_tools-Enabled result nil h = Yields-ok result h
  check_tools-Enabled result (cons (str t) rest) h =
      Yields-if (is_empty (py.strip t)) _ _ (λ _. Yields-value_error _)
        λ _.
          Yields-if (text_eq (py.strip t) spawn_subagent) _ _ (λ _. Yields-value_error _)
            λ _.
              Yields-if (not (elem (py.strip t) parent)) _ _ (λ _. Yields-value_error _)
                λ e.
                  check_tools-Enabled (append_new (py.strip t) result) rest
                    (append_new-All (Enabled parent) (py.strip t) result (ground arith) h)
  check_tools-Enabled result (cons null rest) h = Yields-value_error _
  check_tools-Enabled result (cons (boolean b) rest) h = Yields-value_error _
  check_tools-Enabled result (cons (int n) rest) h = Yields-value_error _
  check_tools-Enabled result (cons (float n) rest) h = Yields-value_error _
  check_tools-Enabled result (cons (list ys) rest) h = Yields-value_error _
  check_tools-Enabled result (cons (tuple ys) rest) h = Yields-value_error _
  check_tools-Enabled result (cons (dict d) rest) h = Yields-value_error _

  validate_allowed_tools-Enabled :
      (o : Option Value) → Yields (All (Enabled parent)) (validate_allowed_tools py parent o)
  unfolding validate_allowed_tools
  validate_allowed_tools-Enabled none =
      Yields-ok _ (sorted-All _ parent (All-elem_self parent parent (λ t h. h)))
  validate_allowed_tools-Enabled (some null) =
      Yields-ok _ (sorted-All _ parent (All-elem_self parent parent (λ t h. h)))
  validate_allowed_tools-Enabled (some (list xs)) =
      Yields-bind _ _ (check_tools-Enabled [] xs tt) λ ts h. Yields-ok _ (sorted-All _ ts h)
  validate_allowed_tools-Enabled (some (boolean b)) = Yields-value_error _
  validate_allowed_tools-Enabled (some (int n)) = Yields-value_error _
  validate_allowed_tools-Enabled (some (float n)) = Yields-value_error _
  validate_allowed_tools-Enabled (some (str t)) = Yields-value_error _
  validate_allowed_tools-Enabled (some (tuple xs)) = Yields-value_error _
  validate_allowed_tools-Enabled (some (dict d)) = Yields-value_error _

-- Between the floor, or the cap if that is lower, and the cap.
abbrev pub Clamped : ℕ → ℕ → Type 0
Clamped cap n = (min min_override cap ≤ n) × (n ≤ cap)

module _ {W : Type 0} (py : Platform W) where
  clamp-Clamped :
      (o : Option Value) (cap : ℕ) (key : String)
      → Yields (Clamped cap) (clamp_subagent_int py o cap key min_override)
  unfolding clamp_subagent_int
  clamp-Clamped none cap key = Yields-ok cap (omega arith, omega arith)
  clamp-Clamped (some null) cap key = Yields-ok cap (omega arith, omega arith)
  clamp-Clamped (some (int (pos (suc n)))) cap key = Yields-ok _ (omega arith, omega arith)
  clamp-Clamped (some (int (pos zero))) cap key = Yields-value_error _
  clamp-Clamped (some (int (negsuc n))) cap key = Yields-value_error _
  clamp-Clamped (some (boolean b)) cap key = Yields-value_error _
  clamp-Clamped (some (float n)) cap key = Yields-value_error _
  clamp-Clamped (some (str t)) cap key = Yields-value_error _
  clamp-Clamped (some (list xs)) cap key = Yields-value_error _
  clamp-Clamped (some (tuple xs)) cap key = Yields-value_error _
  clamp-Clamped (some (dict d)) cap key = Yields-value_error _

  -- What `build_subagent_request` promises of a request, by the tools of the parent and the settings.
  pub record IsBounded (settings : Dict) (parent : List Text) (r : Request) : Type 0 where
    pub iterations_cap : ℕ
    pub iterations_cap_eq : read_pos_int_field py settings "max_iterations" 20 ≡ ok iterations_cap
    pub iterations_clamped : Clamped iterations_cap r.max_iterations
    pub timeout_cap : ℕ
    pub timeout_cap_eq : read_pos_int_field py settings "timeout_seconds" 600 ≡ ok timeout_cap
    pub timeout_clamped : Clamped timeout_cap r.timeout_seconds
    pub tools_enabled : All (Enabled parent) r.allowed_tools
    pub has_task : is_empty r.task ≡ false

  task-nonempty : (o : Option Value) → Yields (λ t. is_empty t ≡ false) (task_of py o)
  unfolding task_of stripped_task
  task-nonempty none = Yields-value_error _
  task-nonempty (some (str t)) =
      Yields-if (is_empty (py.strip t)) _ _ (λ _. Yields-value_error _) (λ e. Yields-ok _ e)
  task-nonempty (some null) = Yields-value_error _
  task-nonempty (some (boolean b)) = Yields-value_error _
  task-nonempty (some (int n)) = Yields-value_error _
  task-nonempty (some (float n)) = Yields-value_error _
  task-nonempty (some (list xs)) = Yields-value_error _
  task-nonempty (some (tuple xs)) = Yields-value_error _
  task-nonempty (some (dict d)) = Yields-value_error _

  -- What a computation yields is what it returned.
  Yields-self : {A : Type 0} (m : Checked A) → Yields (λ a. m ≡ ok a) m
  Yields-self m = record { at = λ a e. e }

  build-IsBounded :
      (settings : Dict) (parent : List Text) (args : Dict)
      → Yields (IsBounded settings parent) (build_subagent_request py settings parent args)
  unfolding build_subagent_request
  build-IsBounded settings parent args =
      Yields-bind _ _ (task-nonempty (get_field "task" args)) λ task has_task.
        Yields-bind _ _ (Yields-any _) λ context _.
          Yields-bind _ _ (Yields-any _) λ expected_output _.
            Yields-bind _ _
              (validate_allowed_tools-Enabled py parent (get_field "allowed_tools" args))
              λ tools enabled. Yields-bind _ _ (Yields-any _) λ skills _.
                Yields-bind _ _ (Yields-self _) λ cap cap_eq.
                  Yields-bind _ _
                    (clamp-Clamped (get_field "max_iterations" args) cap "max_iterations")
                    λ n clamped. Yields-bind _ _ (Yields-self _) λ time time_eq.
                      Yields-bind _ _
                        (clamp-Clamped (get_field "timeout_seconds" args) time "timeout_seconds")
                        λ s within. Yields-bind _ _ (Yields-any _) λ chars _. Yields-ok _ (record {
                          iterations_cap = cap;
                          iterations_cap_eq = cap_eq;
                          iterations_clamped = clamped;
                          timeout_cap = time;
                          timeout_cap_eq = time_eq;
                          timeout_clamped = within;
                          tools_enabled = enabled;
                          has_task = has_task;
                        })

  -- A request that the parent builds from the model's arguments has a task, hands out only tools
  -- that the parent has, and has an iteration limit and a time limit that are at most those of the
  -- settings and at least 3, or the setting if that is lower.
  pub build_subagent_request-IsBounded :
      (settings : Dict) (parent : List Text) (args : Dict) (r : Request)
      → build_subagent_request py settings parent args ≡ ok r
      → IsBounded settings parent r
  build_subagent_request-IsBounded settings parent args r e =
      (build-IsBounded settings parent args).at r e
