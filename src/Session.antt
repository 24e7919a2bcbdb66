-- ===== src/Session.antt =====
-- session.py: `_validate_session_id`. adapters/session_persistence.py: `redact_sensitive`,
-- `state_for_follow_up`, and the content that `append_session_event_journal` writes.
use strange_claw.Prelude.{
  ℕ, zero, suc, ◌-◌, ◌==◌, ltb, leb, Bool, true, false, not, ◌&&◌, ◌||◌, Option, none, some, List,
  [], ◌∷◌, ◌++◌, length, if◌then◌else◌,
}
use strange_claw.Text.{Text, codes, text_eq, contains, is_empty}
use strange_claw.Value.{
  Value, null, boolean, int, float, str, list, tuple, dict, Items, nil, cons, Dict, empty, entry,
  Key, name, other, key_eq, put, text,
}
use strange_claw.Python.{Outcome, returned, raised}
pub mod Secrets
pub mod Journal
pub mod Tests

abbrev is_id_char : ℕ → Bool
is_id_char c =
    (leb b'A' c && leb c b'Z')
    || (leb b'a' c && leb c b'z')
    || (leb b'0' c && leb c b'9')
    || c == b'-'

abbrev all_id : Text → Bool
all_id [] = true
all_id (c ∷ s) = is_id_char c && all_id s

-- `SESSION_ID_PATTERN.fullmatch(session_id)`
pub is_session_id : Text → Bool
is_session_id s = not (is_empty s) && all_id s

-- `s[n:]`
abbrev pub drop {ℓ} : {A : Type ℓ} → ℕ → List A → List A
drop zero xs = xs
drop (suc n) [] = []
drop (suc n) (x ∷ xs) = drop n xs

-- `s.endswith(u)`
abbrev is_suffix : Text → Text → Bool
is_suffix u s = leb (length u) (length s) && text_eq (drop (length s - length u) s) u

abbrev pub is_sensitive_lower : Text → Bool
is_sensitive_lower k =
    text_eq k (codes "api_key")
    || contains (codes "authorization") k
    || is_suffix (codes "token") k
    || text_eq k (codes "token")
    || is_suffix (codes "_secret") k

abbrev pub redacted : Value
redacted = text "[REDACTED]"

abbrev pub bind {ℓ κ} : {A : Type ℓ} {B : Type κ} → Outcome A → (A → Outcome B) → Outcome B
bind (returned a) f = f a
bind (raised e) f = raised e

-- A key that is no text has no `lower`.
module _ (lower : Text → Text) where
  mutual
    pub redact_sensitive : Value → Outcome Value
    redact_sensitive null = returned null
    redact_sensitive (boolean b) = returned (boolean b)
    redact_sensitive (int n) = returned (int n)
    redact_sensitive (float n) = returned (float n)
    redact_sensitive (str s) = returned (str s)
    redact_sensitive (tuple xs) = returned (tuple xs)
    redact_sensitive (list xs) = bind (redact_items xs) (λ ys. returned (list ys))
    redact_sensitive (dict d) = bind (redact_entries empty d) (λ e. returned (dict e))

    pub redact_items : Items → Outcome Items
    redact_items nil = returned nil
    redact_items (cons v xs) =
        bind (redact_sensitive v) (λ w. bind (redact_items xs) (λ ys. returned (cons w ys)))

    pub redact_entries : Dict → Dict → Outcome Dict
    redact_entries acc empty = returned acc
    redact_entries acc (entry (name k) v d) =
        bind (if is_sensitive_lower (lower k) then returned redacted else redact_sensitive v)
          (λ w. redact_entries (put (name k) w acc) d)
    redact_entries acc (entry (other n) v d) = raised (codes "object has no attribute 'lower'")

  -- `d.pop(key, None)`
  unfoldable pub pop : Key → Dict → Dict
  pop k empty = empty
  pop k (entry j v d) = let rest = pop k d in if key_eq j k then rest else entry j v rest

  pub state_for_follow_up : Dict → Outcome Dict
  unfolding redact_sensitive
  state_for_follow_up state =
      bind (redact_entries empty state) (λ next. returned (pop (name (codes "plan")) next))

-- `existing[-budget:]`, which is the whole for a budget of 0
abbrev tail_of : ℕ → List ℕ → List ℕ
tail_of zero existing = existing
tail_of (suc n) existing = drop (length existing - suc n) existing

-- What follows the first newline, or nothing
abbrev pub after_newline : List ℕ → List ℕ
after_newline [] = []
after_newline (c ∷ cs) = if c == 10 then cs else after_newline cs

abbrev pub keep_within : ℕ → List ℕ → List ℕ
keep_within budget existing =
    if ltb budget (length existing) then after_newline (tail_of budget existing) else existing

-- The new content of the journal, if it is written, for a line that ends in a newline
pub append_journal : Bool → ℕ → List ℕ → List ℕ → Option (List ℕ)
append_journal enabled max_bytes existing line =
    if not enabled || max_bytes == 0
    then none
    else if ltb max_bytes (length line)
    then none
    else some (keep_within (max_bytes - length line) existing ++ line)
