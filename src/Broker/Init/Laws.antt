-- ===== src/Broker/Init/Laws.antt =====
-- Every policy of a new broker is sound, and its token is redacted.
use strange_claw.Prelude.{
  ◌≡◌, refl, sym, All, true, some, [], ◌∷◌, ◌⊎◌, inl, inr, Bool-cases, arith,
}
use strange_claw.Text.{Text, elem, text_eq}
use strange_claw.Text.Equality.{text_eq→eq}
use strange_claw.Assoc.{Assoc, insert, lookup, lookup-insert}
use strange_claw.Value.{dict, Dict, empty, entry, name, other}
use strange_claw.Python.{Platform, Outcome, returned, raised}
use strange_claw.Broker.Bucket.{Bucket}
use strange_claw.Broker.Checked.{Checked, ok, value_error, crashed}
use strange_claw.Broker.Policy.{Policy, from_record}
use strange_claw.Broker.Policy.Laws.{IsSound, from_record-IsSound}
use strange_claw.Broker.Tokens.{collect_credential_tokens}
use strange_claw.Broker.Tokens.Laws.{Covers, collect_credential_tokens-Covers}
use strange_claw.Broker.Host.{Host}
use strange_claw.Broker.Redact.Clean.{Redactable, CleanDict, CleanDict-elem}
use strange_claw.Broker.Handle.{RequestBroker, missing_envelope, handle}
use strange_claw.Broker.Handle.Reply.{handle-Clean}
use strange_claw.Broker.Init.{
  Tables, add_policy, add_checked, and_then, add_all, broker_of, new_broker,
}

module _ {W : Type 0} (py : Platform W) (P : Text → Type 0) where
  -- A policy under its own name, sound, with a token of the property.
  abbrev Proper : Text → Policy → Type 0
  Proper integration p = IsSound py p × (p.integration ≡ integration) × P p.token

  record AllProper (t : Tables) : Type 0 where
    at : (k : Text) (p : Policy) → lookup k t.policies ≡ some p → Proper k p

  insert-Proper :
      (i k : Text) (p q : Policy) (ps : Assoc Policy)
      → Proper i p
      → ((r : Policy) → lookup k ps ≡ some r → Proper k r)
      → lookup k (insert i p ps) ≡ some q
      → Proper k q
  insert-Proper i k p q ps proper all e = elim (Bool-cases (text_eq i k)) [
    | inl same ↦
        let name_eq : i ≡ k = text_eq→eq i k same in
        let policy_eq : p ≡ q = ground (arith, lookup-insert i k p ps) in
        rw (← name_eq, ← policy_eq) proper
    | inr differs ↦ all q (ground (arith, lookup-insert i k p ps))
  ]

  policies-add_policy :
      (integration : Text) (p : Policy) (t : Tables) (w : W)
      → (add_policy py integration p t w).0.policies ≡ insert integration p t.policies
  unfolding add_policy
  policies-add_policy integration p t w = ground arith

  add_policy-AllProper :
      (integration : Text) (p : Policy) (t : Tables) (w : W)
      → Proper integration p
      → AllProper t
      → AllProper (add_policy py integration p t w).0
  add_policy-AllProper integration p t w proper all = record {
    at = λ k q e.
        insert-Proper integration k p q t.policies proper (all.at k)
          (rw (policies-add_policy integration p t w) at e);
  }

  -- The tables, if there are any.
  abbrev Results : Outcome Tables → Type 0
  Results (returned t) = AllProper t
  Results (raised e) = Unit

  Results-and_then :
      (r : Outcome Tables × W) (next : Tables → W → Outcome Tables × W)
      → Results r.0
      → ((t : Tables) (w : W) → AllProper t → Results (next t w).0)
      → Results (and_then py r next).0
  Results-and_then (returned t, w) next h k = k t w h
  Results-and_then (raised e, w) next h k = tt

  add_checked-Results :
      (integration : Text) (c : Checked Policy) (t : Tables) (w : W)
      → ((p : Policy) → c ≡ ok p → Proper integration p)
      → AllProper t
      → Results (add_checked py integration c t w).0
  unfolding add_checked
  add_checked-Results integration (ok p) t w proper all =
      add_policy-AllProper integration p t w (proper p refl) all
  add_checked-Results integration (value_error e) t w proper all = all
  add_checked-Results integration (crashed e) t w proper all = tt

  add_all-Results :
      (d : Dict) (t : Tables) (w : W) → Covers P d → AllProper t → Results (add_all py d t w).0
  unfolding add_all
  add_all-Results empty t w c all = all
  add_all-Results (entry (name i) (dict fields) d) t w c all =
      Results-and_then (add_checked py i (from_record py i fields) t w) (add_all py d)
        (add_checked-Results i (from_record py i fields) t w
          (λ p e.
            let built = from_record-IsSound py i fields p e in
            (built.0, built.1.of_name, c.0 p.token built.1.of_token built.0.has_token))
          all)
        (λ t' w' all'. add_all-Results d t' w' c.1 all')
  add_all-Results (entry (other n) (dict fields) d) t w c all = add_all-Results d t w c.1 all
  add_all-Results (entry k v d) t w c all = add_all-Results d t w c all

  AllProper-nil : AllProper (record { policies = []; limiters = [] })
  unfolding lookup
  AllProper-nil = record { at = λ k p e. absurd (cc) }

  broker_of-Proper :
      (credentials config : Dict) (r : Outcome Tables × W) (b : RequestBroker)
      (limiters : Assoc Bucket)
      → Results r.0
      → (broker_of py credentials config r).0 ≡ returned (b, limiters)
      → (k : Text) (p : Policy) → lookup k b.policies ≡ some p
      → Proper k p × (b.redaction_tokens ≡ collect_credential_tokens credentials)
  broker_of-Proper credentials config (returned t, w) b limiters all e k p found =
      let tables_eq : t.policies ≡ b.policies = ground arith in
      let tokens_eq : collect_credential_tokens credentials ≡ b.redaction_tokens = ground arith in
      (all.at k p (rw tables_eq found), sym tokens_eq)
  broker_of-Proper credentials config (raised x, w) b limiters all e k p found = absurd (cc)

module _ {W : Type 0} (py : Platform W) where
  -- Every policy of a new broker stands under its own name, is sound, and its token is among those
  -- that the broker redacts.
  pub new_broker-IsSound :
      (credentials config : Dict) (w : W) (b : RequestBroker) (limiters : Assoc Bucket)
      → (new_broker py credentials config w).0 ≡ returned (b, limiters)
      → (k : Text) (p : Policy) → lookup k b.policies ≡ some p
      → IsSound py p × (p.integration ≡ k) × (elem p.token b.redaction_tokens ≡ true)
  unfolding new_broker
  new_broker-IsSound credentials config w b limiters e k p found =
      let P = λ (t : Text). elem t (collect_credential_tokens credentials) ≡ true in
      let all =
        add_all-Results py P credentials (record { policies = []; limiters = [] }) w
          (collect_credential_tokens-Covers credentials) (AllProper-nil py P) in
      let ((sound, named, token), tokens_eq) =
        broker_of-Proper py P credentials config
          (add_all py credentials (record { policies = []; limiters = [] }) w) b limiters all e k p
          found in
      (sound, named, rw tokens_eq token)

  -- No text or key of any reply holds the token of any integration of a new broker, if the tokens are
  -- non-empty, have no bracket and do not occur in "REDACTED". The one other reply is the fixed one
  -- that stands for a reply without a boolean `success`.
  pub handle_hides_tokens :
      (credentials config : Dict) (w : W) (b : RequestBroker) (limiters : Assoc Bucket)
      → (new_broker py credentials config w).0 ≡ returned (b, limiters)
      → All Redactable b.redaction_tokens
      → (k : Text) (p : Policy) → lookup k b.policies ≡ some p
      → (payload : Dict) (h : Host W)
      → CleanDict (p.token ∷ []) (handle py b payload h).0
        ⊎ ((handle py b payload h).0 ≡ missing_envelope)
  handle_hides_tokens credentials config w b limiters e rs k p found payload h =
      let (sound, named, token) = new_broker-IsSound credentials config w b limiters e k p found in
      elim (handle-Clean py b payload h rs) [
        | inl clean ↦ inl (CleanDict-elem p.token b.redaction_tokens token _ clean)
        | inr fixed ↦ inr fixed
      ]
