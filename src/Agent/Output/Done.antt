-- ===== src/Agent/Output/Done.antt =====
-- What is built is a done event.
use strange_claw.Prelude.{◌≡◌, refl, Bool, true, List, ◌⊎◌, inl, inr}
use strange_claw.Text.{Text, text_eq}
use strange_claw.Value.{Value, Dict, get, key_eq}
use strange_claw.Agent.Run.{Runtime, Loop, is_type}
use strange_claw.Agent.Output.{Exported, done_with, build_done_event}

module _ {W : Type 0} (rt : Runtime W) where
  done_with-type :
      (success : Bool) (reply : Text) (state : Dict) (x : List Exported ⊎ Text)
      → is_type "done" (done_with rt success reply state x) ≡ true
  unfolding get key_eq text_eq
  done_with-type success reply state (inl files) = refl
  done_with-type success reply state (inr e) = refl

  pub build_done_event-type :
      (s : Loop W) (goal : Text) (plan : Value) (history : List Dict) (success : Bool)
      (reply : Text)
      → is_type "done" (build_done_event rt s goal plan history success reply) ≡ true
  unfolding build_done_event
  build_done_event-type s goal plan history success reply = done_with-type success reply _ _
