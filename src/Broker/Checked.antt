-- ===== src/Broker/Checked.antt =====
-- What the constructors and parsers of sandbox/broker.py give: a result, a ValueError that the
-- caller catches, or another exception.
use strange_claw.Prelude.{Bool, true, false, ◌≡◌, refl, subst}
use strange_claw.Text.{Text}

pub data Checked {ℓ} (A : Type ℓ) : Type ℓ where
  ok : A → Checked A
  value_error : Text → Checked A
  crashed : Text → Checked A

infixl 5 ◌>>=◌ ◌>>◌
unfoldable pub ◌>>=◌ {ℓ κ} : {A : Type ℓ} {B : Type κ} → Checked A → (A → Checked B) → Checked B
ok a >>= f = f a
value_error e >>= f = value_error e
crashed e >>= f = crashed e

abbrev pub ◌>>◌ {ℓ} : {B : Type ℓ} → Checked (Unit {0}) → Checked B → Checked B
m >> k = m >>= λ _. k

abbrev pub require : Bool → Text → Checked (Unit {0})
require true e = ok tt
require false e = value_error e

-- `P` holds of the result, if there is one.
pub record Yields {ℓ κ} {A : Type ℓ} (P : A → Type κ) (m : Checked A) : Type (ℓ ⊔ κ) where
  pub at : (a : A) → m ≡ ok a → P a

ok-injective {ℓ} : {A : Type ℓ} {a b : A} → ok a ≡ ok b → a ≡ b
ok-injective e = cc

module _ {ℓ κ} {A : Type ℓ} {P : A → Type κ} where
  pub Yields-ok : (a : A) → P a → Yields P (ok a)
  Yields-ok a h = record { at = λ b e. subst P (ok-injective e) h }

  pub Yields-value_error : (e : Text) → Yields P (value_error e)
  Yields-value_error e = record { at = λ b h. absurd (cc) }

  pub Yields-crashed : (e : Text) → Yields P (crashed e)
  Yields-crashed e = record { at = λ b h. absurd (cc) }

pub Yields-any {ℓ} : {A : Type ℓ} (m : Checked A) → Yields (λ _. Unit {0}) m
Yields-any m = record { at = λ a e. tt }

-- The rest may use what the first part yields.
pub Yields-bind {ℓ κ λ₁ λ₂} :
    {A : Type ℓ} {B : Type κ} {Q : A → Type λ₁} {P : B → Type λ₂} (m : Checked A)
    (f : A → Checked B)
    → Yields Q m
    → ((a : A) → Q a → Yields P (f a))
    → Yields P (m >>= f)
unfolding ◌>>=◌
Yields-bind (ok a) f q k = k a (q.at a refl)
Yields-bind (value_error e) f q k = Yields-value_error e
Yields-bind (crashed e) f q k = Yields-crashed e

pub Yields-require : (b : Bool) (e : Text) → Yields (λ _. b ≡ true) (require b e)
Yields-require true e = record { at = λ a h. refl }
Yields-require false e = Yields-value_error e
