-- ===== src/Broker/Search/Results.antt =====
-- The results are the first `max_results` of the usable items, in their order.
use strange_claw.Prelude.{
  ℕ, zero, suc, ◌+◌, ◌<◌, ◌≡◌, refl, none, some, List, [], ◌∷◌, String, take, Option-cases, inl,
  inr, arith,
}
use strange_claw.Value.{Value, Items, nil, cons}
use strange_claw.Python.{Platform}
use strange_claw.Broker.Search.{normalize_result, normalize_items}

module _ {W : Type 0} (py : Platform W) where
  -- Every usable item.
  abbrev pub all_results : String → Items → List Value
  all_results snippet_key nil = []
  all_results snippet_key (cons item rest) = elim (normalize_result py snippet_key item) [
    | none ↦ all_results snippet_key rest
    | some result ↦ result ∷ all_results snippet_key rest
  ]

  normalize_items-take :
      (k : String) (max left count : ℕ) (xs : Items)
      → max ≡ suc left + count
      → normalize_items py k max count xs ≡ take (suc left) (all_results k xs)
  unfolding normalize_items
  normalize_items-take k max left count nil e = refl
  normalize_items-take k max zero count (cons x xs) e =
      elim (Option-cases (normalize_result py k x)) [
        | inl unusable ↦ ground (arith, normalize_items-take k max 0 count xs e)
        | inr (r, usable) ↦ ground arith
      ]
  normalize_items-take k max (suc left) count (cons x xs) e =
      elim (Option-cases (normalize_result py k x)) [
        | inl unusable ↦ ground (arith, normalize_items-take k max (suc left) count xs e)
        | inr (r, usable) ↦
            ground (arith, normalize_items-take k max left (suc count) xs (omega arith))
      ]

  -- The loop keeps exactly the first `max_results` of the items that are mappings with a text for a
  -- title and for a URL, in their order, if `max_results` is positive.
  pub normalize_items_lem :
      (k : String) (max_results : ℕ) (xs : Items)
      → 0 < max_results
      → normalize_items py k max_results 0 xs ≡ take max_results (all_results k xs)
  normalize_items_lem k zero xs h = absurd (omega arith)
  normalize_items_lem k (suc left) xs h = normalize_items-take k (suc left) left 0 xs (omega arith)
