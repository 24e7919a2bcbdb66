-- ===== src/Agent/Envelope/Status.antt =====
-- The verdict of an envelope, by the last `done` event of the child.
use strange_claw.Prelude.{
  ◌≡◌, refl, ◌∙◌, ap, Bool, true, false, Bool-cases, inl, inr, Option, none, some, List, [], ◌∷◌,
  ◌++◌, String, if◌then◌else◌,
}
use strange_claw.Text.{Text, text_eq}
use strange_claw.Value.{Value, boolean, text, Dict, get_field, get, key_eq}
use strange_claw.Python.{Platform}
use strange_claw.Agent.Envelope.{
  has_type, last_done, verdict, verdict_of, is_success, hit_limit, build_envelope,
}

abbrev pub NoDone : List Dict → Type 0
NoDone [] = Unit
NoDone (e ∷ es) = (has_type "done" e ≡ false) × NoDone es

last_done-NoDone :
    (found : Option Dict) (events : List Dict) → NoDone events → last_done found events ≡ found
unfolding last_done
last_done-NoDone found [] h = refl
last_done-NoDone found (e ∷ es) h = rw (h.0) (last_done-NoDone found es h.1)

last_done-append :
    (found : Option Dict) (before : List Dict) (done : Dict) (after : List Dict)
    → has_type "done" done ≡ true
    → NoDone after
    → last_done found (before ++ done ∷ after) ≡ some done
unfolding last_done
last_done-append found [] done after h free =
    ap (λ (b : Bool). last_done (if b then some done else found) after) h
    ∙ last_done-NoDone (some done) after free
last_done-append found (e ∷ es) done after h free =
    last_done-append (if has_type "done" e then some e else found) es done after h free

-- The status that the `done` event of a child stands for.
abbrev pub status_of : Dict → String
status_of done =
    if is_success done
    then "completed"
    else if hit_limit done
    then "max_iterations"
    else "child_failed"

module _ {W : Type 0} (py : Platform W) where
  verdict-status :
      (done : Dict)
      → (get_field "success" (verdict_of py (some done)) ≡ some (boolean (is_success done)))
        × (get_field "status" (verdict_of py (some done)) ≡ some (text (status_of done)))
  unfolding verdict_of verdict get key_eq text_eq
  verdict-status done = elim (Bool-cases (is_success done)) [
    | inl ok ↦ rw ok (refl, refl)
    | inr failed ↦ rw failed (refl, refl)
  ]

  -- The flag and the status of an envelope are those of the last `done` event: it succeeded, it hit
  -- its iteration limit, or it failed.
  pub build_envelope-status :
      (limits : Dict) (child_id : Text) (before : List Dict) (done : Dict) (after : List Dict)
      (duration : Value)
      → has_type "done" done ≡ true
      → NoDone after
      → (get_field "success" (build_envelope py limits child_id (before ++ done ∷ after) duration)
          ≡ some (boolean (is_success done)))
        × (get_field "status" (build_envelope py limits child_id (before ++ done ∷ after) duration)
            ≡ some (text (status_of done)))
  unfolding build_envelope get key_eq text_eq
  build_envelope-status limits child_id before done after duration h free =
      rw (last_done-append none before done after h free) (verdict-status done)
