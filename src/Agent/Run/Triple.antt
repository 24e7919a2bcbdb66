-- ===== src/Agent/Run/Triple.antt =====
-- Conditions before and after an action: `Q` if it returns, `E` if it does not.
use strange_claw.Prelude.{Bool, true, false, ◌≡◌, refl, if◌then◌else◌, ◌⊎◌, inl, inr}
use strange_claw.Text.{Text}
use strange_claw.Agent.Run.{
  Answer, returned, failed, Failure, agent_error, runtime_error, other_error, blocked, Run, pure,
  fail, caught_agent, catch_agent, caught_runtime, catch_runtime, continue, ◌>>=◌, ◌>>◌,
}

module _ {S A : Type 0} where
  abbrev pub Post : (A → S → Type 0) → (S → Type 0) → Answer A × S → Type 0
  Post Q E (returned a, s) = Q a s
  Post Q E (failed e, s) = E s

  pub record Triple (P : S → Type 0) (m : Run S A) (Q : A → S → Type 0) (E : S → Type 0)
      : Type 0 where
    pub at : (s : S) → P s → Post Q E (m s)

module _ {S A : Type 0} {P E : S → Type 0} {Q : A → S → Type 0} where
  pub Triple-pure : (a : A) → ((s : S) → P s → Q a s) → Triple P (pure a) Q E
  unfolding pure
  Triple-pure a k = record { at = k }

  pub Triple-fail : (e : Failure) → ((s : S) → P s → E s) → Triple P (fail e) Q E
  unfolding fail
  Triple-fail e k = record { at = k }

  pub Triple-if :
      (b : Bool) (m n : Run S A)
      → (b ≡ true → Triple P m Q E)
      → (b ≡ false → Triple P n Q E)
      → Triple P (if b then m else n) Q E
  Triple-if true m n km kn = km refl
  Triple-if false m n km kn = kn refl

module _ {S A B : Type 0} (Q : A → S → Type 0) (R : B → S → Type 0) (E : S → Type 0) where
  Post-continue :
      (x : Answer A × S) (f : A → Run S B)
      → Post Q E x
      → ((a : A) → Triple (Q a) (f a) R E)
      → Post R E (continue x f)
  Post-continue (returned a, s) f q k = (k a).at s q
  Post-continue (failed e, s) f q k = q

module _ {S A B : Type 0} {P E : S → Type 0} {Q : A → S → Type 0} {R : B → S → Type 0} where
  pub Triple-bind :
      (m : Run S A) (f : A → Run S B)
      → Triple P m Q E
      → ((a : A) → Triple (Q a) (f a) R E)
      → Triple P (m >>= f) R E
  unfolding ◌>>=◌
  Triple-bind m f t k = record { at = λ s p. Post-continue Q R E (m s) f (t.at s p) k }

  pub Triple-then :
      (m : Run S A) (n : Run S B)
      → Triple P m Q E
      → ((a : A) → Triple (Q a) n R E)
      → Triple P (m >> n) R E
  unfolding ◌>>◌
  Triple-then m n t k = record { at = λ s p. Post-continue Q R E (m s) (λ _. n) (t.at s p) k }

module _ {S A : Type 0} (Q Q' : A → S → Type 0) (E E' : S → Type 0) where
  Post-weaken :
      (x : Answer A × S)
      → ((a : A) (s : S) → Q a s → Q' a s)
      → ((s : S) → E s → E' s)
      → Post Q E x
      → Post Q' E' x
  Post-weaken (returned a, s) k l q = k a s q
  Post-weaken (failed e, s) k l q = l s q

module _ {S A : Type 0} {P P' E E' : S → Type 0} {Q Q' : A → S → Type 0} where
  pub Triple-weaken :
      (m : Run S A)
      → Triple P m Q E
      → ((s : S) → P' s → P s)
      → ((a : A) (s : S) → Q a s → Q' a s)
      → ((s : S) → E s → E' s)
      → Triple P' m Q' E'
  Triple-weaken m t before after failing = record {
    at = λ s p. Post-weaken Q Q' E E' (m s) after failing (t.at s (before s p));
  }

module _ {S A : Type 0} (Q : A → S → Type 0) (E : S → Type 0) where
  pub Post-if :
      (b : Bool) (x y : Answer A × S)
      → (b ≡ true → Post Q E x)
      → (b ≡ false → Post Q E y)
      → Post Q E (if b then x else y)
  Post-if true x y f g = f refl
  Post-if false x y f g = g refl

-- What holds after the action, however it ends.
module _ {S A : Type 0} (Q : S → Type 0) where
  pub Post-anyhow : (x : Answer A × S) → Q x.1 → Post (λ _. Q) Q x
  Post-anyhow (returned a, s) q = q
  Post-anyhow (failed e, s) q = q

module _ {S A : Type 0} {P Q : S → Type 0} where
  pub Triple_anyhow : (m : Run S A) → ((s : S) → P s → Q (m s).1) → Triple P m (λ _. Q) Q
  Triple_anyhow m k = record { at = λ s p. Post-anyhow Q (m s) (k s p) }

module _ {S A : Type 0} (Q : A → S → Type 0) (E : S → Type 0) where
  -- What follows a caught error: the condition of the failure.
  abbrev pub Caught : A ⊎ Text → S → Type 0
  Caught (inl a) s = Q a s
  Caught (inr e) s = E s

  Post-caught_agent : (x : Answer A × S) → Post Q E x → Post Caught E (caught_agent x)
  Post-caught_agent (returned a, s) q = q
  Post-caught_agent (failed (agent_error e), s) q = q
  Post-caught_agent (failed (runtime_error e), s) q = q
  Post-caught_agent (failed (other_error e), s) q = q
  Post-caught_agent (failed blocked, s) q = q

  Post-caught_runtime : (x : Answer A × S) → Post Q E x → Post Caught E (caught_runtime x)
  Post-caught_runtime (returned a, s) q = q
  Post-caught_runtime (failed (agent_error e), s) q = q
  Post-caught_runtime (failed (runtime_error e), s) q = q
  Post-caught_runtime (failed (other_error e), s) q = q
  Post-caught_runtime (failed blocked, s) q = q

module _ {S A : Type 0} {P E : S → Type 0} {Q : A → S → Type 0} where
  pub Triple-catch_agent : (m : Run S A) → Triple P m Q E → Triple P (catch_agent m) (Caught Q E) E
  unfolding catch_agent
  Triple-catch_agent m t = record { at = λ s p. Post-caught_agent Q E (m s) (t.at s p) }

  pub Triple-catch_runtime :
      (m : Run S A) → Triple P m Q E → Triple P (catch_runtime m) (Caught Q E) E
  unfolding catch_runtime
  Triple-catch_runtime m t = record { at = λ s p. Post-caught_runtime Q E (m s) (t.at s p) }
