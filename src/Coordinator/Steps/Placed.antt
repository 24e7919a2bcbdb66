-- ===== src/Coordinator/Steps/Placed.antt =====
-- coordinator.py: what the section of `start_task` does with the records once it goes ahead: it puts one
-- record, which waits for nothing, and sends at most the one task.
use strange_claw.Prelude.{
  ℕ, ◌≡◌, refl, Bool, true, false, Option, none, some, List, ◌∷◌, ◌⊎◌, inl, inr, ap,
}
use strange_claw.Text.{Text}
use strange_claw.Value.{Dict}
use strange_claw.Assoc.{insert}
use strange_claw.Python.{Outcome, returned, raised}
use strange_claw.Coordinator.{SessionRecord, Outside, Happened, tasked, Coordinator}
use strange_claw.Coordinator.Start.{
  Begun, failed_start, employed, delivered, send_to_sandbox, bring_up, built, reuse, launch_in,
}

module _ {W : Type 0} (out : Outside W) (c0 : Coordinator W) (sid : Text) (task : Dict) where
  abbrev pub Logged : List Happened → Type 0
  Logged log = (log ≡ c0.log) ⊎ (log ≡ tasked sid task ∷ c0.log)

  pub record Placed (x : Begun × Coordinator W) : Type 0 where
    pub left : SessionRecord
    pub puts : x.1.sessions ≡ insert sid left c0.sessions
    pub is_free : left.pending_role ≡ none
    pub logged : Logged (x.1.log)

  failed_start-Placed :
      (r : SessionRecord) (new : Bool) (b : ℕ) (e : Text) (c : Coordinator W)
      → c.sessions ≡ c0.sessions
      → Logged c.log
      → Placed (failed_start out sid r new b e c)
  failed_start-Placed r false b e c s l = record {
    left = _;
    puts = ap (insert sid _) s;
    is_free = refl;
    logged = l;
  }
  failed_start-Placed r true b e c s l = record {
    left = _;
    puts = ap (insert sid _) s;
    is_free = refl;
    logged = l;
  }

  employed-Placed :
      (r : SessionRecord) (new : Bool) (b : ℕ) (x : Outcome ℕ × W) (c : Coordinator W)
      → c.sessions ≡ c0.sessions
      → Logged c.log
      → Placed (employed out sid r new b x c)
  employed-Placed r new b (returned k, w) c s l = record {
    left = _;
    puts = ap (insert sid _) s;
    is_free = refl;
    logged = l;
  }
  employed-Placed r new b (raised e, w) c s l =
      failed_start-Placed r new b e (record c { world = w }) s l

  delivered-Placed :
      (r : SessionRecord) (new : Bool) (b : ℕ) (x : Outcome (Unit {0}) × W) (c : Coordinator W)
      → c.sessions ≡ c0.sessions
      → Logged c.log
      → Placed (delivered out sid task r new b x c)
  delivered-Placed r new b (returned u, w) c s l =
      employed-Placed r new b (out.start_worker b task w) (record c { world = w }) s l
  delivered-Placed r new b (raised e, w) c s l =
      failed_start-Placed r new b e (record c { world = w }) s l

  send_to_sandbox-Placed :
      (r : SessionRecord) (new : Bool) (b : ℕ) (w : W)
      → Placed (send_to_sandbox out sid task r new b (record c0 { world = w }))
  unfolding send_to_sandbox
  send_to_sandbox-Placed r new b w =
      delivered-Placed r new b (out.send_task b task w)
        (record c0 { world = w; log = tasked sid task ∷ c0.log }) refl (inr refl)

  bring_up-Placed :
      (r : SessionRecord) (b : ℕ) (x : Outcome (Unit {0}) × W)
      → Placed (bring_up out sid task r b x c0)
  bring_up-Placed r b (returned u, w) =
      send_to_sandbox-Placed (record r { sandbox = some b }) true b w
  bring_up-Placed r b (raised e, w) =
      failed_start-Placed r false b e (record c0 { world = w }) refl (inl refl)

  built-Placed : (r : SessionRecord) (x : Outcome ℕ × W) → Placed (built out sid task r x c0)
  built-Placed r (returned b, w) = bring_up-Placed r b (out.start b sid w)
  built-Placed r (raised e, w) =
      failed_start-Placed r false 0 e (record c0 { world = w }) refl (inl refl)

  reuse-Placed :
      (r : SessionRecord) (b : ℕ) (x : Outcome Bool) → Placed (reuse out sid task r b x c0)
  reuse-Placed r b (returned true) = send_to_sandbox-Placed r false b c0.world
  reuse-Placed r b (returned false) = built-Placed r (out.sandbox_factory c0.world)
  reuse-Placed r b (raised e) = failed_start-Placed r false b e c0 refl (inl refl)

  pub launch_in-Placed : (r : SessionRecord) (x : Option ℕ) → Placed (launch_in out sid task r x c0)
  launch_in-Placed r none = built-Placed r (out.sandbox_factory c0.world)
  launch_in-Placed r (some b) = reuse-Placed r b (out.is_running c0.world b)
