-- ===== src/Broker/Host/Triple.antt =====
-- Conditions before and after an action: `Q` if it returns, `E` if it raises.
use strange_claw.Prelude.{Bool, true, false, ◌≡◌, refl, if◌then◌else◌}
use strange_claw.Python.{Outcome, returned, raised}
use strange_claw.Broker.Host.{Host, Exec, pure, lift, ◌>>=◌, continue}

module _ {W A : Type 0} where
  abbrev pub Post : (A → Host W → Type 0) → (Host W → Type 0) → Outcome A × Host W → Type 0
  Post Q E (returned a, h) = Q a h
  Post Q E (raised e, h) = E h

  pub record Triple (P : Host W → Type 0) (m : Exec W A) (Q : A → Host W → Type 0)
      (E : Host W → Type 0) : Type 0 where
    pub at : (h : Host W) → P h → Post Q E (m h)

module _ {W A : Type 0} (Q : A → Host W → Type 0) (E : Host W → Type 0) where
  Post-lift :
      (r : Outcome A) (h : Host W) → ((a : A) → r ≡ returned a → Q a h) → E h → Post Q E (r, h)
  Post-lift (returned a) h k e = k a refl
  Post-lift (raised x) h k e = e

  Post-weaken :
      (Q' : A → Host W → Type 0) (x : Outcome A × Host W)
      → ((a : A) (h : Host W) → Q a h → Q' a h)
      → Post Q E x
      → Post Q' E x
  Post-weaken Q' (returned a, h) k q = k a h q
  Post-weaken Q' (raised x, h) k q = q

module _ {W A B : Type 0} (Q : A → Host W → Type 0) (R : B → Host W → Type 0)
    (E : Host W → Type 0) where
  Post-continue :
      (r : Outcome A) (f : A → Exec W B) (h : Host W)
      → Post Q E (r, h)
      → ((a : A) → Triple (Q a) (f a) R E)
      → Post R E (continue r f h)
  Post-continue (returned a) f h q k = (k a).at h q
  Post-continue (raised x) f h q k = q

module _ {W A : Type 0} {P E : Host W → Type 0} {Q : A → Host W → Type 0} where
  pub Triple-pure : (a : A) → ((h : Host W) → P h → Q a h) → Triple P (pure a) Q E
  unfolding pure
  Triple-pure a k = record { at = k }

  pub Triple-lift :
      (r : Outcome A)
      → ((a : A) (h : Host W) → r ≡ returned a → P h → Q a h)
      → ((h : Host W) → P h → E h)
      → Triple P (lift r) Q E
  unfolding lift
  Triple-lift r k e = record { at = λ h p. Post-lift Q E r h (λ a eq. k a h eq p) (e h p) }

  pub Triple-if :
      (b : Bool) (m n : Exec W A)
      → (b ≡ true → Triple P m Q E)
      → (b ≡ false → Triple P n Q E)
      → Triple P (if b then m else n) Q E
  Triple-if true m n km kn = km refl
  Triple-if false m n km kn = kn refl

module _ {W A B : Type 0} {P E : Host W → Type 0} {Q : A → Host W → Type 0}
    {R : B → Host W → Type 0} where
  pub Triple-bind :
      (m : Exec W A) (f : A → Exec W B)
      → Triple P m Q E
      → ((a : A) → Triple (Q a) (f a) R E)
      → Triple P (m >>= f) R E
  unfolding ◌>>=◌
  Triple-bind m f t k = record {
    at = λ h p. let (r, h') = m h in Post-continue Q R E r f h' (t.at h p) k;
  }

module _ {W A : Type 0} {P P' E : Host W → Type 0} {Q Q' : A → Host W → Type 0} where
  -- A weaker condition after, a stronger one before.
  pub Triple-weaken :
      (m : Exec W A)
      → Triple P m Q E
      → ((h : Host W) → P' h → P h)
      → ((a : A) (h : Host W) → Q a h → Q' a h)
      → Triple P' m Q' E
  Triple-weaken m t before after = record {
    at = λ h p. Post-weaken Q E Q' (m h) after (t.at h (before h p));
  }

module _ {W A : Type 0} (P Q E : Host W → Type 0) (weaken : (h : Host W) → Q h → E h) where
  Post-of_state : (x : Outcome A × Host W) → Q x.1 → Post (λ _. Q) E x
  Post-of_state (returned a, h) q = q
  Post-of_state (raised e, h) q = weaken h q

  -- A condition on the state alone.
  pub Triple_of_state : (m : Exec W A) → ((h : Host W) → P h → Q (m h).1) → Triple P m (λ _. Q) E
  Triple_of_state m k = record { at = λ h p. Post-of_state (m h) (k h p) }
