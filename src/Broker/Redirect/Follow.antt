-- ===== src/Broker/Redirect/Follow.antt =====
-- A rule for the redirect loop: what each request needs is established by the guard before it.
use strange_claw.Prelude.{ℕ, zero, suc, ◌≡◌, refl, Bool, Option, none, some, not, arith}
use strange_claw.Prelude.Int.{ℤ}
use strange_claw.Text.{Text, codes, text_eq}
use strange_claw.Assoc.{Headers}
use strange_claw.Value.{Dict}
use strange_claw.Python.{Platform}
use strange_claw.Broker.Host.{Host, Exec, pure}
use strange_claw.Broker.Host.Triple.{
  Triple, Triple-pure, Triple-lift, Triple-if, Triple-bind, Triple-weaken,
}
use strange_claw.Broker.Redirect.{
  after_guard, redirect, after_target, after_response, one_request, follow, is_failure,
}

module _ {W : Type 0} (py : Platform W) (method url : Text) (headers : Headers) (body : Option Text)
    (max_bytes : ℕ) (decode_utf8 : Bool) (guard : Text → Text → Exec W (Option Dict))
    (I : Host W → Type 0) (Ready : Text → Host W → Type 0)
    (sends : (u : Text)
      → Triple
          (Ready u)
          (one_request py method url headers body max_bytes decode_utf8 guard u)
          (λ _. I)
          I)
    (guards : (u : Text) → Triple I (guard u method) (λ d h. I h × (d ≡ none → Ready u h)) I) where
  abbrev Keeps : Exec W Dict → Type 0
  Keeps m = Triple I m (λ _. I) I

  after_guard-Triple :
      (again : Text → Exec W Dict) (u : Text) (d : Option Dict)
      → Triple (Ready u) (again u) (λ _. I) I
      → Triple
          (λ h. I h × (d ≡ none → Ready u h))
          (after_guard py method url headers body max_bytes decode_utf8 guard again u d)
          (λ _. I)
          I
  unfolding after_guard
  after_guard-Triple again u none t = Triple-weaken (again u) t (λ h k. k.1 refl) (λ a h k. k)
  after_guard-Triple again u (some denial) t = Triple-pure denial (λ h k. k.0)

  redirect-Triple :
      (hops : ℕ) (again : Text → Exec W Dict) (status : Option ℤ) (u : Text)
      → ((v : Text) (left : ℕ) → hops ≡ suc left → Triple (Ready v) (again v) (λ _. I) I)
      → Keeps (redirect py method url headers body max_bytes decode_utf8 guard hops again status u)
  unfolding redirect
  redirect-Triple zero again status u t =
      Triple-if (not (text_eq method (codes "GET"))) _ _ (λ _. Triple-pure _ (λ h k. k))
        (λ _. Triple-pure _ (λ h k. k))
  redirect-Triple (suc hops) again status u t =
      Triple-if (not (text_eq method (codes "GET"))) _ _ (λ _. Triple-pure _ (λ h k. k))
        λ _. Triple-bind _ _ (guards u) λ d. after_guard-Triple again u d (t u hops refl)

  after_target-Triple :
      (hops : ℕ) (again : Text → Exec W Dict) (result : Dict) (status : Option ℤ)
      (next : Option Text)
      → ((v : Text) (left : ℕ) → hops ≡ suc left → Triple (Ready v) (again v) (λ _. I) I)
      → Keeps (
          after_target py method url headers body max_bytes decode_utf8 guard hops again result
            status next)
  unfolding after_target
  after_target-Triple hops again result status none t = Triple-pure result (λ h k. k)
  after_target-Triple hops again result status (some u) t = redirect-Triple hops again status u t

  after_response-Triple :
      (hops : ℕ) (again : Text → Exec W Dict) (current : Text) (result : Dict)
      → ((v : Text) (left : ℕ) → hops ≡ suc left → Triple (Ready v) (again v) (λ _. I) I)
      → Keeps (
          after_response py method url headers body max_bytes decode_utf8 guard hops again current
            result)
  unfolding after_response
  after_response-Triple hops again current result t =
      Triple-if (is_failure result) _ _ (λ _. Triple-pure result (λ h k. k))
        λ _. Triple-bind _ _ (Triple-lift _ (λ a h e k. k) (λ h k. k)) λ status.
          Triple-bind _ _ (Triple-lift _ (λ a h e k. k) (λ h k. k))
            λ next. after_target-Triple hops again result status next t

  pub follow-Triple :
      (hops : ℕ) (current : Text)
      → Triple
          (Ready current)
          (follow py method url headers body max_bytes decode_utf8 guard hops current)
          (λ _. I)
          I
  unfolding follow
  follow-Triple zero current = Triple-bind _ _ (sends current) λ result.
      after_response-Triple zero (λ _. pure result) current result
        (λ v left e. absurd (omega arith))
  follow-Triple (suc hops) current =
      Triple-bind _ _ (sends current) λ result.
        after_response-Triple (suc hops) _ current result (λ v left e. follow-Triple hops v)
