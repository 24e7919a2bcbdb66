-- ===== src/Agent/Log.antt =====
-- Predicates of the actions of an agent, and the actions that keep them.
use strange_claw.Prelude.{
  ℕ, suc, ◌≤◌, ◌≡◌, refl, Bool, true, false, ◌&&◌, Option, none, some, List, [], ◌∷◌, String,
  if◌then◌else◌, arith,
}
use strange_claw.Text.{Text, codes, text_eq}
use strange_claw.Value.{Value, str, Dict, get_field}
use strange_claw.Broker.Checked.{Checked, ok, value_error, crashed}
use strange_claw.Broker.Config.{truth}
use strange_claw.Agent.Protocol.{validate_event}
use strange_claw.Agent.Run.{
  Loop, Action, sent, replied, acted, Run, send, deliver, transmit, append_history, is_type,
}
use strange_claw.Agent.Run.Triple.{Triple, Post, Post-anyhow}

-- The tools and children that were run, and the done events that were sent
abbrev pub acted_count : List Action → ℕ
acted_count [] = 0
acted_count (acted tool args ∷ t) = suc (acted_count t)
acted_count (sent e ∷ t) = acted_count t
acted_count (replied r ∷ t) = acted_count t

abbrev pub done_count : List Action → ℕ
done_count [] = 0
done_count (sent e ∷ t) = if is_type "done" e then suc (done_count t) else done_count t
done_count (replied r ∷ t) = done_count t
done_count (acted tool args ∷ t) = done_count t

abbrev pub has_role : String → Dict → Bool
has_role r event = elim (get_field "role" event) [ some (str s) ↦ text_eq s (codes r) | _ ↦ false ]

-- A plan that is shown to the user
abbrev pub is_plan : Dict → Bool
is_plan event = is_type "message" event && has_role "plan" event

abbrev pub is_approval : Option Value → Bool
is_approval none = false
is_approval (some v) = truth v

abbrev pub approves : Dict → Bool
approves reply = is_approval (get_field "approved" reply)

-- The user approved after the last plan was shown.
abbrev pub cleared : List Action → Bool
cleared [] = false
cleared (sent e ∷ t) = if is_plan e then false else cleared t
cleared (replied r ∷ t) = if approves r then true else cleared t
cleared (acted tool args ∷ t) = cleared t

-- Whatever was run, the user had approved the last plan before, if the mode is strict.
abbrev pub IsApproved : Bool → List Action → Type 0
IsApproved strict [] = Unit
IsApproved strict (acted tool args ∷ t) = (strict ≡ true → cleared t ≡ true) × IsApproved strict t
IsApproved strict (sent e ∷ t) = IsApproved strict t
IsApproved strict (replied r ∷ t) = IsApproved strict t

-- At most `e` runs and exactly `d` done events
pub record Within (strict : Bool) (e d : ℕ) (t : List Action) : Type 0 where
  pub runs : acted_count t ≤ e
  pub dones : done_count t ≡ d
  pub approved : IsApproved strict t

pub record Ready (strict : Bool) (e d : ℕ) (t : List Action) : Type 0 where
  pub within : Within strict e d t
  pub clear : strict ≡ true → cleared t ≡ true

-- What the trace satisfies
abbrev pub On : {W : Type 0} → (List Action → Type 0) → Loop W → Type 0
On P s = P s.trace

-- An event that is no done event and shows no plan keeps the predicate.
abbrev pub Steady : (List Action → Type 0) → Type 0
Steady P =
    (event : Dict) (t : List Action)
    → is_type "done" event ≡ false
    → is_plan event ≡ false
    → P t
    → P (sent event ∷ t)

pub Within_sent :
    (strict : Bool) (e d : ℕ) (event : Dict) (t : List Action)
    → is_type "done" event ≡ false
    → Within strict e d t
    → Within strict e d (sent event ∷ t)
Within_sent strict e d event t h w = record {
  runs = w.runs;
  dones = rw h (w.dones);
  approved = w.approved;
}

pub Within-Steady : (strict : Bool) (e d : ℕ) → Steady (Within strict e d)
Within-Steady strict e d event t h k w = Within_sent strict e d event t h w

pub Ready-Steady : (strict : Bool) (e d : ℕ) → Steady (Ready strict e d)
Ready-Steady strict e d event t h k r = record {
  within = Within_sent strict e d event t h r.within;
  clear = λ on. rw k (r.clear on);
}

pub Within_done :
    (strict : Bool) (e d : ℕ) (event : Dict) (t : List Action)
    → is_type "done" event ≡ true
    → Within strict e d t
    → Within strict e (suc d) (sent event ∷ t)
Within_done strict e d event t h w = record {
  runs = w.runs;
  dones = rw h (omega (arith, w.dones));
  approved = w.approved;
}

pub Within_replied :
    (strict : Bool) (e d : ℕ) (r : Dict) (t : List Action)
    → Within strict e d t
    → Within strict e d (replied r ∷ t)
Within_replied strict e d r t w = record { runs = w.runs; dones = w.dones; approved = w.approved }

pub Ready-replied :
    (strict : Bool) (e d : ℕ) (r : Dict) (t : List Action)
    → Ready strict e d t
    → Ready strict e d (replied r ∷ t)
Ready-replied strict e d r t h = record {
  within = Within_replied strict e d r t h.within;
  clear = λ on. ground (arith, h.clear on);
}

pub Ready-approved :
    (strict : Bool) (e d : ℕ) (r : Dict) (t : List Action)
    → approves r ≡ true
    → Within strict e d t
    → Ready strict e d (replied r ∷ t)
Ready-approved strict e d r t says w = record {
  within = Within_replied strict e d r t w;
  clear = λ on. rw says refl;
}

pub Ready-acted :
    (strict : Bool) (e d : ℕ) (tool : Text) (args : Dict) (t : List Action)
    → Ready strict e d t
    → Ready strict (suc e) d (acted tool args ∷ t)
Ready-acted strict e d tool args t h = record {
  within = record {
    runs = omega (arith, h.within.runs);
    dones = h.within.dones;
    approved = (h.clear, h.within.approved);
  };
  clear = h.clear;
}

pub Within_more :
    (strict : Bool) (e f d : ℕ) (t : List Action)
    → e ≤ f
    → Within strict e d t
    → Within strict f d t
Within_more strict e f d t h w = record {
  runs = omega (arith, w.runs);
  dones = w.dones;
  approved = w.approved;
}

pub Ready-more :
    (strict : Bool) (e f d : ℕ) (t : List Action) → e ≤ f → Ready strict e d t → Ready strict f d t
Ready-more strict e f d t h r = record {
  within = Within_more strict e f d t h r.within;
  clear = r.clear;
}

module _ {W : Type 0} (P Q : List Action → Type 0) (event : Dict) where
  Post-deliver :
      (c : Checked (Unit {0})) (s : Loop W)
      → Q (sent event ∷ s.trace)
      → P s.trace
      → Post (λ _. On Q) (On P) (deliver event c s)
  unfolding deliver
  Post-deliver (ok u) s q p = q
  Post-deliver (value_error e) s q p = p
  Post-deliver (crashed e) s q p = p

  Post-transmit :
      (e : Option Text) (s : Loop W)
      → Q (sent event ∷ s.trace)
      → P s.trace
      → Post (λ _. On Q) (On P) (transmit event e s)
  unfolding transmit
  Post-transmit none s q p = Post-deliver (validate_event event) s q p
  Post-transmit (some e) s q p = p

  pub send-Triple :
      ((t : List Action) → P t → Q (sent event ∷ t))
      → Triple {S = Loop W} (On P) (send event) (λ _. On Q) (On P)
  unfolding send
  send-Triple k = record { at = λ s p. Post-transmit _ _ (k s.trace p) p }

module _ {W A : Type 0} (P : List Action → Type 0) where
  -- What leaves the trace alone keeps what holds of it.
  pub Triple_quiet :
      (m : Run (Loop W) A)
      → ((s : Loop W) → (m s).1.trace ≡ s.trace)
      → Triple (On P) m (λ _. On P) (On P)
  Triple_quiet m k = record { at = λ s p. Post-anyhow (On P) (m s) (rw (k s) p) }

pub append_history-Triple :
    {W : Type 0} (P : List Action → Type 0) (event : Dict) {E : Loop W → Type 0}
    → Triple (On P) (append_history event) (λ _. On P) E
unfolding append_history
append_history-Triple P event = record { at = λ s p. p }
