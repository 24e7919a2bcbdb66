-- ===== src/Broker/Tokens/Tests.antt =====
-- The tokens of one configured integration.
use strange_claw.Prelude.{◌≡◌, refl, true, [], ◌∷◌}
use strange_claw.Text.{codes, elem, text_eq}
use strange_claw.Broker.Tokens.{collect_credential_tokens, add_token}
use strange_claw.Broker.Tokens.Laws.{
  LongestFirst, Covers, collect_credential_tokens-Covers, collect_credential_tokens-LongestFirst,
}
use strange_claw.Example.{credentials}

pub collect-github : collect_credential_tokens credentials ≡ codes "ghp_secret" ∷ []
unfolding collect_credential_tokens add_token elem text_eq
collect-github = refl

collect_credential_tokens-LongestFirst_example :
    LongestFirst (collect_credential_tokens credentials)
collect_credential_tokens-LongestFirst_example = collect_credential_tokens-LongestFirst credentials

collect_credential_tokens-Covers_example :
    Covers (λ t. elem t (collect_credential_tokens credentials) ≡ true) credentials
collect_credential_tokens-Covers_example = collect_credential_tokens-Covers credentials
