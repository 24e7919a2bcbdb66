-- ===== src/Broker/Search.antt =====
-- sandbox/broker.py: `_append_query_params`, `_normalize_brave_results` and
-- `_normalize_searxng_results`.
use strange_claw.Prelude.{
  ℕ, suc, Bool, true, false, Option, none, some, List, [], ◌∷◌, ◌++◌, String, leb, if◌then◌else◌,
}
use strange_claw.Text.{Text, codes}
use strange_claw.Assoc.{Headers}
use strange_claw.Value.{
  Value, str, list, dict, Items, nil, cons, Dict, empty, get_field, field, text,
}
use strange_claw.Python.{Platform, Outcome, returned, raised, SplitUrl, to_str}
use strange_claw.Broker.Policy.{field_or_none, field_or}
pub mod Results

module _ {W : Type 0} (py : Platform W) where
  with_params : SplitUrl → Headers → Outcome (Headers) → Outcome Text
  with_params split params (returned existing) =
      returned (py.urlunsplit (record split { query = py.urlencode (existing ++ params) }))
  with_params split params (raised e) = raised e

  unfoldable pub append_query_params : Text → Headers → Outcome Text
  unfolding with_params
  append_query_params url params = elim (py.urlsplit url) [
    | returned split ↦ with_params split params (py.parse_qsl split.query)
    | raised e ↦ raised e
  ]

  result_of_texts : Value → Value → Value → Option Value
  result_of_texts (str title) (str url) snippet = some (
      dict (
        field "title" (str title)
          (field "url" (str url) (field "snippet" (str (to_str py snippet)) empty))))
  result_of_texts _ _ _ = none

  -- The entry for one item, if the item is a mapping with a title and a URL.
  pub normalize_result : String → Value → Option Value
  unfolding result_of_texts
  normalize_result snippet_key (dict item) =
      result_of_texts (field_or_none "title" item) (field_or_none "url" item)
        (field_or snippet_key (text "") item)
  normalize_result snippet_key _ = none

  -- The loop, with the number of entries so far.
  pub normalize_items : String → ℕ → ℕ → Items → List Value
  unfolding normalize_result
  normalize_items snippet_key max_results count nil = []
  normalize_items snippet_key max_results count (cons item rest) =
      let skipped = normalize_items snippet_key max_results count rest in
      let following = normalize_items snippet_key max_results (suc count) rest in
      elim (normalize_result snippet_key item) [
        | none ↦ skipped
        | some result ↦ result ∷ (if leb max_results (suc count) then [] else following)
      ]

  normalize_list : String → ℕ → Value → List Value
  unfolding normalize_items
  normalize_list snippet_key max_results (list xs) = normalize_items snippet_key max_results 0 xs
  normalize_list snippet_key max_results _ = []

  web_object : ℕ → Value → List Value
  unfolding normalize_list
  web_object max_results (dict web) =
      normalize_list "description" max_results (field_or_none "results" web)
  web_object max_results _ = []

  unfoldable pub normalize_brave_results : Dict → ℕ → List Value
  unfolding web_object
  normalize_brave_results payload max_results = web_object max_results (field_or_none "web" payload)

  unfoldable pub normalize_searxng_results : Dict → ℕ → List Value
  unfolding normalize_list
  normalize_searxng_results payload max_results =
      normalize_list "content" max_results (field_or_none "results" payload)
