-- ===== src/Coordinator/Steps.antt =====
-- coordinator.py: the runs of a coordinator. A step is one section under the lock, or a change of the
-- world outside, so that a run has the sections of several threads in any order.
use strange_claw.Prelude.{ℕ, Bool, Option, List, []}
use strange_claw.Text.{Text}
use strange_claw.Value.{Dict}
use strange_claw.Coordinator.{
  Outside, Coordinator, seed_state, release, retire_begin, handle_worker_exit,
}
use strange_claw.Coordinator.Start.{start_section}
use strange_claw.Coordinator.Events.{submit_reply, event_section}
use strange_claw.Coordinator.Stop.{stop_begin, stop_all_begin, reap_begin}
pub mod Capacity
pub mod Inserts
pub mod Invariant
pub mod Placed
pub mod Starts
pub mod Handled
pub mod Laws
pub mod Whole

module _ {W : Type 0} (out : Outside W) where
  pub data Step : Coordinator W → Coordinator W → Type 0 where
    elsewhere : (w : W) {c : Coordinator W} → Step c (record c { world = w })
    seeding :
        (sid : Text) (state : Dict) {c : Coordinator W}
        → Step c (record c { sessions = seed_state sid state c.sessions })
    retiring :
        (sid : Text) {c : Coordinator W}
        → Step c (record c { sessions = (retire_begin out c.world sid c.sessions).1 })
    releasing :
        (sid : Text) (sandbox : Option ℕ) {c : Coordinator W}
        → Step c (record c { sessions = release sid sandbox c.sessions })
    starting :
        (sid goal : Text) (sink : ℕ) {c : Coordinator W}
        → Step c (start_section out sid goal sink c).1
    replying :
        (sid : Text) (approved : Bool) (reply : Text) {c : Coordinator W}
        → Step c (submit_reply out sid approved reply c).1
    handling :
        (sid : Text) (event : Dict) {c : Coordinator W} → Step c (event_section out sid event c).1
    exiting :
        (sid : Text) {c : Coordinator W}
        → Step c (record c { sessions = handle_worker_exit sid c.sessions })
    stopping_one :
        (sid : Text) {c : Coordinator W}
        → Step c (record c { sessions = stop_begin sid c.sessions })
    stopping_all : {c : Coordinator W} → Step c (record c { sessions = stop_all_begin c.sessions })
    reaping :
        (now : ℕ) {c : Coordinator W}
        → Step c (record c { sessions = reap_begin out now c.world c.sessions })

  pub data Reaches : Coordinator W → Coordinator W → Type 0 where
    here : {c : Coordinator W} → Reaches c c
    after : {a b c : Coordinator W} → Reaches a b → Step b c → Reaches a c

  -- `Coordinator.__init__`
  abbrev pub new_coordinator : W → Coordinator W
  new_coordinator w = record { sessions = []; world = w; log = [] }
