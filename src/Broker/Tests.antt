-- ===== src/Broker/Tests.antt =====
-- The theorems on the example: a configured integration, its payload and its replies.
use strange_claw.Prelude.{◌≡◌, ◌↔◌, none, [], ◌∷◌, take, ◌⊎◌, All, arith}
use strange_claw.Prelude.Int.{pos}
use strange_claw.Text.{codes, contains}
use strange_claw.Value.{Value, str, list, dict, int, Items, empty, field, text, items}
use strange_claw.Python.{returned, Stream, finished, chunk}
use strange_claw.Broker.Numbers.{infinite}
use strange_claw.Broker.Bucket.{new_bucket}
use strange_claw.Broker.Bucket.Limit.{consume_all, first_calls-granted}
use strange_claw.Broker.Redact.{redact_value}
use strange_claw.Broker.Redact.Clean.{Redactable, Clean, CleanDict, redact_value-Clean}
use strange_claw.Broker.Validate.{validate_or_deny}
use strange_claw.Broker.Validate.Laws.{Permits, validate_or_deny_lem}
use strange_claw.Broker.Fetch.{read_body}
use strange_claw.Broker.Fetch.Limit.{cut_at, read_body-cut_at}
use strange_claw.Broker.Search.{normalize_items}
use strange_claw.Broker.Search.Results.{all_results, normalize_items_lem}
use strange_claw.Broker.Handle.{missing_envelope, handle}
use strange_claw.Broker.Handle.Reply.{HasSuccess, handle-HasSuccess, handle-Clean}
use strange_claw.Broker.Handle.Safe.{handle-Safe}
use strange_claw.Broker.Safety.{Safe}
use strange_claw.Example.{py, github, github_policy, broker, host, payload}

handle-Safe_example : Safe py broker.policies (handle py broker payload host).1
handle-Safe_example = handle-Safe py broker payload host tt

token-Redactable : All Redactable (codes "ghp_secret" ∷ [])
unfolding contains
token-Redactable = ground arith

handle-Clean_example :
    CleanDict broker.redaction_tokens (handle py broker payload host).0
    ⊎ ((handle py broker payload host).0 ≡ missing_envelope)
handle-Clean_example = handle-Clean py broker payload host token-Redactable

handle-HasSuccess_example : HasSuccess (handle py broker payload host).0
handle-HasSuccess_example = handle-HasSuccess py broker payload host

abbrev leak : Value
leak = dict (field "echo ghp_secret" (list (items (str (codes "a ghp_secret b") ∷ []))) empty)

redact_value-Clean_example :
    Clean broker.redaction_tokens (redact_value broker.redaction_tokens leak)
redact_value-Clean_example = redact_value-Clean broker.redaction_tokens leak token-Redactable

validate_or_deny_example :
    (validate_or_deny py github_policy github (codes "get") (codes "https://api.github.com/user") []
      ≡ returned none)
    ↔ Permits py github_policy (py.upper (codes "get")) (codes "https://api.github.com/user") []
validate_or_deny_example =
    validate_or_deny_lem py github_policy github (codes "get") (codes "https://api.github.com/user")
      []

abbrev stream : Stream
stream = chunk (codes "abcd") (chunk [] (chunk (codes "efgh") finished))

read_body_example : read_body 6 [] 0 stream ≡ cut_at 6 stream
read_body_example = read_body-cut_at 6 stream

first_calls-granted_example : (consume_all (5 ∷ 5 ∷ 4 ∷ []) (new_bucket 3 infinite 5)).0 ≡ 3
first_calls-granted_example = first_calls-granted 3 infinite 5 (5 ∷ 5 ∷ 4 ∷ []) (ground arith)

abbrev hit : Value
hit = dict (field "title" (text "T") (field "url" (text "https://t") empty))

abbrev hits : Items
hits = items (int (pos 1) ∷ hit ∷ hit ∷ [])

normalize_items_example :
    normalize_items py "content" 1 0 hits ≡ take 1 (all_results py "content" hits)
normalize_items_example = normalize_items_lem py "content" 1 hits (ground arith)
