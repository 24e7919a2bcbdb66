-- ===== src/Session/Tests.antt =====
-- The theorems on a small journal and a small state.
use strange_claw.Prelude.{ℕ, ◌≤◌, ◌≡◌, refl, arith, true, none, some, List, [], ◌∷◌, ◌++◌, length}
use strange_claw.Text.{codes, text_eq, contains}
use strange_claw.Value.{Dict, empty, field, text, get, key_eq, put, name, text}
use strange_claw.Session.{append_journal, redact_sensitive, pop, state_for_follow_up}
use strange_claw.Session.Journal.{append_journal-le, append_journal_at_limit}
use strange_claw.Session.Secrets.{HiddenDict, state_for_follow_up-Hidden}

abbrev journal : List ℕ
journal = 97 ∷ 10 ∷ 98 ∷ 99 ∷ 10 ∷ []

abbrev kept : List ℕ
kept = 98 ∷ 99 ∷ 10 ∷ 100 ∷ 10 ∷ []

append_journal-le_example : length kept ≤ 6
unfolding append_journal
append_journal-le_example = append_journal-le true 6 journal (100 ∷ 10 ∷ []) kept (omega arith) refl

append_journal_at_limit_example :
    append_journal true 2 journal (100 ∷ 10 ∷ []) ≡ some ((98 ∷ 99 ∷ 10 ∷ []) ++ 100 ∷ 10 ∷ [])
append_journal_at_limit_example =
    append_journal_at_limit 2 (97 ∷ []) (98 ∷ 99 ∷ 10 ∷ []) (100 ∷ 10 ∷ []) (omega arith) refl
      (refl, tt)

abbrev state : Dict
state = field "token" (text "t1") (field "plan" (text "p") (field "goal" (text "g") empty))

abbrev next : Dict
next = field "token" (text "[REDACTED]") (field "goal" (text "g") empty)

state_for_follow_up-Hidden_example :
    HiddenDict (λ s. s) next × (get (name (codes "plan")) next ≡ none)
unfolding state_for_follow_up redact_sensitive pop get key_eq text_eq put contains
state_for_follow_up-Hidden_example = state_for_follow_up-Hidden (λ s. s) state next refl
