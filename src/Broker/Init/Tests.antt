-- ===== src/Broker/Init/Tests.antt =====
-- The broker of one configured integration.
use strange_claw.Prelude.{◌≡◌, refl, true, some, [], ◌∷◌, ◌⊎◌, All, arith}
use strange_claw.Text.{codes, elem, contains, text_eq}
use strange_claw.Assoc.{insert, lookup}
use strange_claw.Value.{empty}
use strange_claw.Python.{returned}
use strange_claw.Broker.Policy.Laws.{IsSound}
use strange_claw.Broker.Policy.Tests.{from_record-github}
use strange_claw.Broker.Redact.Clean.{Redactable, CleanDict}
use strange_claw.Broker.Tokens.Tests.{collect-github}
use strange_claw.Broker.Handle.{missing_envelope, handle}
use strange_claw.Broker.Init.{new_broker}
use strange_claw.Broker.Init.Laws.{new_broker-IsSound, handle_hides_tokens}
use strange_claw.Example.{py, github, github_policy, credentials, broker, host, payload}

new_broker-github : (new_broker py credentials empty 0).0 ≡ returned (broker, [])
unfolding new_broker insert
new_broker-github = rw (from_record-github, collect-github)

found : lookup github broker.policies ≡ some github_policy
unfolding lookup text_eq
found = refl

new_broker-IsSound_example :
    IsSound py github_policy
    × (github_policy.integration ≡ github)
    × (elem github_policy.token broker.redaction_tokens ≡ true)
new_broker-IsSound_example =
    new_broker-IsSound py credentials empty 0 broker [] new_broker-github github github_policy found

token-Redactable : All Redactable broker.redaction_tokens
unfolding contains
token-Redactable = ground arith

handle_hides_tokens_example :
    CleanDict (codes "ghp_secret" ∷ []) (handle py broker payload host).0
    ⊎ ((handle py broker payload host).0 ≡ missing_envelope)
handle_hides_tokens_example =
    handle_hides_tokens py credentials empty 0 broker [] new_broker-github token-Redactable github
      github_policy found payload host
