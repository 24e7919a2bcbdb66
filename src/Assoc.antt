-- ===== src/Assoc.antt =====
-- Python's `dict` with text keys, in the order of insertion: the headers of requests, the policies
-- and the rate limiters by integration.
use strange_claw.Prelude.{◌≡◌, refl, Option, none, some, List, [], ◌∷◌, arith, if◌then◌else◌}
use strange_claw.Text.{Text, text_eq}
use strange_claw.Text.Equality.{text_eq_refl, text_eq_iff}

abbrev pub Assoc {ℓ} : Type ℓ → Type ℓ
Assoc V = List (Text × V)

abbrev pub Headers : Type 0
Headers = Assoc Text

module _ {ℓ} {V : Type ℓ} where
  -- `d[key] = value`
  unfoldable pub insert : Text → V → Assoc V → Assoc V
  insert k v [] = (k, v) ∷ []
  insert k v ((j, w) ∷ d) = if text_eq j k then (j, v) ∷ d else (j, w) ∷ insert k v d

  -- `d.get(key)`
  unfoldable pub lookup : Text → Assoc V → Option V
  lookup k [] = none
  lookup k ((j, w) ∷ d) = if text_eq j k then some w else lookup k d

  -- `for key, value in new.items(): d[key] = value`
  unfoldable pub update : Assoc V → Assoc V → Assoc V
  update d [] = d
  update d ((k, v) ∷ new) = update (insert k v d) new

  pub lookup-insert_self : (k : Text) (v : V) (d : Assoc V) → lookup k (insert k v d) ≡ some v
  unfolding lookup insert
  lookup-insert_self k v [] = rw text_eq_refl
  lookup-insert_self k v ((j, w) ∷ d) = ground (arith, lookup-insert_self k v d)

  pub lookup-insert :
      (k j : Text) (v : V) (d : Assoc V)
      → lookup j (insert k v d) ≡ (if text_eq k j then some v else lookup j d)
  unfolding lookup insert
  lookup-insert k j v [] = refl
  lookup-insert k j v ((i, w) ∷ d) =
      ground (arith, text_eq_iff i k, text_eq_iff i j, text_eq_iff k j, lookup-insert k j v d)
