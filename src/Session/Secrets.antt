-- ===== src/Session/Secrets.antt =====
-- What is stored or carried over has no value under a sensitive key.
use strange_claw.Prelude.{Bool, true, false, ◌≡◌, refl, none, inl, inr, Bool-cases, if◌then◌else◌}
use strange_claw.Text.{Text, codes}
use strange_claw.Value.{
  Value, null, boolean, int, float, str, list, tuple, dict, Items, nil, cons, Dict, empty, entry,
  Key, name, other, key_eq, get, put,
}
use strange_claw.Value.Fields.{key_eq→eq}
use strange_claw.Python.{Outcome, returned, raised}
use strange_claw.Session.{
  is_sensitive_lower, redacted, bind, redact_sensitive, redact_items, redact_entries, pop,
  state_for_follow_up,
}

module _ (lower : Text → Text) where
  abbrev HiddenAt : Key → Value → Type 0
  HiddenAt (name k) v = is_sensitive_lower (lower k) ≡ true → v ≡ redacted
  HiddenAt (other n) v = Unit

  -- At every depth, a value under a sensitive key is the redaction mark.
  abbrev mutual
    pub Hidden : Value → Type 0
    Hidden (list xs) = HiddenItems xs
    Hidden (dict d) = HiddenDict d
    Hidden _ = Unit

    pub HiddenItems : Items → Type 0
    HiddenItems nil = Unit
    HiddenItems (cons v xs) = Hidden v × HiddenItems xs

    pub HiddenDict : Dict → Type 0
    HiddenDict empty = Unit
    HiddenDict (entry k v d) = HiddenAt k v × Hidden v × HiddenDict d

  abbrev IfReturned {ℓ} : {A : Type ℓ} → (A → Type 0) → Outcome A → Type 0
  IfReturned P (returned a) = P a
  IfReturned P (raised e) = Unit

  IfReturned-bind {ℓ κ} :
      {A : Type ℓ} {B : Type κ} (P : A → Type 0) (Q : B → Type 0) (x : Outcome A)
      (f : A → Outcome B)
      → IfReturned P x
      → ((a : A) → P a → IfReturned Q (f a))
      → IfReturned Q (bind x f)
  IfReturned-bind P Q (returned a) f p k = k a p
  IfReturned-bind P Q (raised e) f p k = tt

  put-HiddenDict :
      (k : Text) (v : Value) (d : Dict)
      → HiddenAt (name k) v
      → Hidden v
      → HiddenDict d
      → HiddenDict (put (name k) v d)
  unfolding put
  put-HiddenDict k v empty hk hv hd = (hk, hv, tt)
  put-HiddenDict k v (entry j w d) hk hv hd = elim (Bool-cases (key_eq j (name k))) [
    | inl same ↦ rw same (rw (key_eq→eq j (name k) same) (hk, hv, hd.2))
    | inr differs ↦ rw differs (hd.0, hd.1, put-HiddenDict k v d hk hv hd.2)
  ]

  value-Hidden :
      (k : Text) (x : Outcome Value) (b : Bool)
      → is_sensitive_lower (lower k) ≡ b
      → IfReturned Hidden x
      → IfReturned (λ w. HiddenAt (name k) w × Hidden w) (if b then returned redacted else x)
  value-Hidden k x true e h = ((λ on. refl), tt)
  value-Hidden k (returned w) false e h = ((λ on. absurd (cc)), h)
  value-Hidden k (raised x) false e h = tt

  mutual
    unfolding redact_sensitive

    redact_sensitive-Hidden : (v : Value) → IfReturned Hidden (redact_sensitive lower v)
    redact_sensitive-Hidden null = tt
    redact_sensitive-Hidden (boolean b) = tt
    redact_sensitive-Hidden (int n) = tt
    redact_sensitive-Hidden (float n) = tt
    redact_sensitive-Hidden (str s) = tt
    redact_sensitive-Hidden (tuple xs) = tt
    redact_sensitive-Hidden (list xs) =
        IfReturned-bind HiddenItems Hidden _ _ (redact_items-Hidden xs) (λ ys h. h)
    redact_sensitive-Hidden (dict d) =
        IfReturned-bind HiddenDict Hidden _ _ (redact_entries-Hidden empty d tt) (λ e h. h)

    redact_items-Hidden : (xs : Items) → IfReturned HiddenItems (redact_items lower xs)
    redact_items-Hidden nil = tt
    redact_items-Hidden (cons v xs) =
        IfReturned-bind Hidden HiddenItems _ _ (redact_sensitive-Hidden v) λ w hw.
          IfReturned-bind HiddenItems HiddenItems _ _ (redact_items-Hidden xs) λ ys hys. (hw, hys)

    redact_entries-Hidden :
        (acc d : Dict) → HiddenDict acc → IfReturned HiddenDict (redact_entries lower acc d)
    redact_entries-Hidden acc empty h = h
    redact_entries-Hidden acc (entry (name k) v d) h =
        IfReturned-bind (λ w. HiddenAt (name k) w × Hidden w) HiddenDict _ _
          (value-Hidden k _ (is_sensitive_lower (lower k)) refl (redact_sensitive-Hidden v))
          λ w hw. redact_entries-Hidden (put (name k) w acc) d (put-HiddenDict k w acc hw.0 hw.1 h)
    redact_entries-Hidden acc (entry (other n) v d) h = tt

  pop-HiddenDict : (k : Key) (d : Dict) → HiddenDict d → HiddenDict (pop lower k d)
  unfolding pop
  pop-HiddenDict k empty h = tt
  pop-HiddenDict k (entry j v d) h = elim (Bool-cases (key_eq j k)) [
    | inl same ↦ rw same (pop-HiddenDict k d h.2)
    | inr differs ↦ rw differs (h.0, h.1, pop-HiddenDict k d h.2)
  ]

  get-pop : (k : Key) (d : Dict) → get k (pop lower k d) ≡ none
  unfolding pop get
  get-pop k empty = refl
  get-pop k (entry j v d) = elim (Bool-cases (key_eq j k)) [
    | inl same ↦ rw same (get-pop k d)
    | inr differs ↦ rw differs (rw differs (get-pop k d))
  ]

  follow_up :
      (x : Outcome Dict) (next : Dict)
      → IfReturned HiddenDict x
      → bind x (λ d. returned (pop lower (name (codes "plan")) d)) ≡ returned next
      → HiddenDict next × (get (name (codes "plan")) next ≡ none)
  follow_up (returned d) next h e =
      let same : pop lower (name (codes "plan")) d ≡ next = cc in
      rw (← same) (pop-HiddenDict (name (codes "plan")) d h, get-pop (name (codes "plan")) d)
  follow_up (raised x) next h e = cc

  -- The state that goes into a follow-up task has the redaction mark under every sensitive key, at every
  -- depth of its mappings and lists, and has no plan.
  pub state_for_follow_up-Hidden :
      (state next : Dict)
      → state_for_follow_up lower state ≡ returned next
      → HiddenDict next × (get (name (codes "plan")) next ≡ none)
  unfolding state_for_follow_up
  state_for_follow_up-Hidden state next e =
      follow_up _ next (redact_entries-Hidden empty state tt) e
