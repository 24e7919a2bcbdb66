-- ===== src/Agent/Protocol/Event.antt =====
-- The events that `validate_event` accepts, by a table of the fields of each type.
use strange_claw.Prelude.{
  ◌≡◌, refl, Bool, true, false, not, ◌&&◌, Option, none, some, sym, map, List, [], ◌∷◌, String,
  arith, inl, inr, Bool-cases, if◌then◌else◌,
}
use strange_claw.Text.{Text, codes, text_eq, elem}
use strange_claw.Value.{Value, null, boolean, int, float, str, list, tuple, dict, Dict, get_field}
use strange_claw.Broker.Checked.{Checked, ok, value_error, crashed, ◌>>=◌}
use strange_claw.Agent.Protocol.{
  event_types, message_roles, require_str, require_bool, require_dict, check_files, validate_task,
  validate_user_reply, validate_message, validate_action, validate_done, validate_broker_request,
  outcome_of, validate_broker_response, validate_typed, by_type, validate_event,
}

-- What a field may hold.
pub data Kind : Type 0 where
  text_kind : Kind
  bool_kind : Kind
  dict_kind : Kind

abbrev is_of : Kind → Option Value → Bool
is_of text_kind (some (str s)) = true
is_of bool_kind (some (boolean b)) = true
is_of dict_kind (some (dict d)) = true
is_of _ _ = false

abbrev fields_are : List (String × Kind) → Dict → Bool
fields_are [] event = true
fields_are ((key, kind) ∷ fields) event =
    is_of kind (get_field key event) && fields_are fields event

-- The rows of the table: a type, the fields it requires, and a further condition.
pub record Row : Type 0 where
  pub type_name : Text
  pub fields : List (String × Kind)
  pub further : Dict → Bool

abbrev no_condition : Dict → Bool
no_condition event = true

abbrev without_llm : Dict → Bool
without_llm event = elim (get_field "llm" event) [ none ↦ true | some v ↦ false ]

abbrev known_role : Option Value → Bool
known_role (some (str role)) = elem role message_roles
known_role _ = false

abbrev role_and_content : Dict → Bool
role_and_content event =
    known_role (get_field "role" event)
    && elim (get_field "content" event) [ none ↦ false | some v ↦ true ]

abbrev files_listed : Option Value → Bool
files_listed none = true
files_listed (some null) = true
files_listed (some (list xs)) = true
files_listed (some _) = false

abbrev payload_or_error : Option Value → Dict → Bool
payload_or_error (some (boolean true)) event = is_of dict_kind (get_field "payload" event)
payload_or_error (some (boolean false)) event = is_of text_kind (get_field "error" event)
payload_or_error _ event = false

abbrev row : String → List (String × Kind) → (Dict → Bool) → Row
row t fields further = record { type_name = codes t; fields = fields; further = further }

abbrev pub table : List Row
table =
    row "task" (("text", text_kind) ∷ ("session_id", text_kind) ∷ ("approval_mode", text_kind) ∷ [])
      without_llm
    ∷ row "user_reply" (("text", text_kind) ∷ ("approved", bool_kind) ∷ []) no_condition
    ∷ row "stop" [] no_condition
    ∷ row "agent_ready" [] no_condition
    ∷ row "message" (("role", text_kind) ∷ []) role_and_content
    ∷ row "action" (("tool", text_kind) ∷ ("args", dict_kind) ∷ ("result", dict_kind) ∷ [])
        no_condition
    ∷ row "done" (("success", bool_kind) ∷ ("reply", text_kind) ∷ ("state", dict_kind) ∷ [])
        (λ event. files_listed (get_field "files" event))
    ∷ row "broker_request"
        (("request_id", text_kind) ∷ ("service", text_kind) ∷ ("payload", dict_kind) ∷ [])
        no_condition
    ∷ row "broker_response" (("request_id", text_kind) ∷ ("success", bool_kind) ∷ [])
        (λ event. payload_or_error (get_field "success" event) event)
    ∷ []

-- Some row has the type of the event, and the event meets it.
abbrev meets : Text → Dict → List Row → Bool
meets t event [] = false
meets t event (r ∷ rows) =
    if text_eq t r.type_name
    then fields_are r.fields event && r.further event
    else meets t event rows

abbrev of_type : Dict → Option Value → Bool
of_type event (some (str t)) = meets t event table
of_type event _ = false

abbrev pub is_event : Dict → Bool
is_event event = of_type event (get_field "type" event)

abbrev pub accepted : Checked (Unit {0}) → Bool
accepted (ok u) = true
accepted (value_error e) = false
accepted (crashed e) = false

accepted-validate_task :
    (event : Dict)
    → accepted (validate_task event) ≡ (
        fields_are
          (("text", text_kind) ∷ ("session_id", text_kind) ∷ ("approval_mode", text_kind) ∷ [])
          event
        && without_llm event)
unfolding validate_task require_str ◌>>=◌
accepted-validate_task event = ground arith

accepted-validate_user_reply :
    (event : Dict)
    → accepted (validate_user_reply event)
      ≡ (fields_are (("text", text_kind) ∷ ("approved", bool_kind) ∷ []) event && true)
unfolding validate_user_reply require_str require_bool ◌>>=◌
accepted-validate_user_reply event = ground arith

accepted-validate_message :
    (event : Dict)
    → accepted (validate_message event)
      ≡ (fields_are (("role", text_kind) ∷ []) event && role_and_content event)
unfolding validate_message require_str ◌>>=◌
accepted-validate_message event = ground arith

accepted-validate_action :
    (event : Dict)
    → accepted (validate_action event) ≡ (
        fields_are (("tool", text_kind) ∷ ("args", dict_kind) ∷ ("result", dict_kind) ∷ []) event
        && true)
unfolding validate_action require_str require_dict ◌>>=◌
accepted-validate_action event = ground arith

accepted-validate_done :
    (event : Dict)
    → accepted (validate_done event) ≡ (
        fields_are (("success", bool_kind) ∷ ("reply", text_kind) ∷ ("state", dict_kind) ∷ []) event
        && files_listed (get_field "files" event))
unfolding validate_done require_str require_bool require_dict check_files ◌>>=◌
accepted-validate_done event = ground arith

accepted-validate_broker_request :
    (event : Dict)
    → accepted (validate_broker_request event) ≡ (
        fields_are
          (("request_id", text_kind) ∷ ("service", text_kind) ∷ ("payload", dict_kind) ∷ [])
          event
        && true)
unfolding validate_broker_request require_str require_dict ◌>>=◌
accepted-validate_broker_request event = ground arith

accepted-validate_broker_response :
    (event : Dict)
    → accepted (validate_broker_response event) ≡ (
        fields_are (("request_id", text_kind) ∷ ("success", bool_kind) ∷ []) event
        && payload_or_error (get_field "success" event) event)
unfolding validate_broker_response require_str require_bool require_dict outcome_of ◌>>=◌
accepted-validate_broker_response event = ground arith

accepted-branch :
    (b : Bool) (x y : Checked (Unit {0})) (u v : Bool)
    → accepted x ≡ u
    → (b ≡ false → accepted y ≡ v)
    → accepted (if b then x else y) ≡ (if b then u else v)
accepted-branch true x y u v h k = h
accepted-branch false x y u v h k = k refl

accepted-validate_typed :
    (t : Text) (event : Dict)
    → elem t event_types ≡ true
    → accepted (validate_typed t event) ≡ meets t event table
unfolding validate_typed elem
accepted-validate_typed t event listed =
    accepted-branch (text_eq t (codes "task")) _ _ _ _ (accepted-validate_task event) λ h1.
      accepted-branch (text_eq t (codes "user_reply")) _ _ _ _ (accepted-validate_user_reply event)
        λ h2. accepted-branch (text_eq t (codes "stop")) _ _ _ _ refl λ h3.
          accepted-branch (text_eq t (codes "agent_ready")) _ _ _ _ refl λ h4.
            accepted-branch (text_eq t (codes "message")) _ _ _ _ (accepted-validate_message event)
              λ h5.
                accepted-branch (text_eq t (codes "action")) _ _ _ _
                  (accepted-validate_action event)
                  λ h6.
                    accepted-branch (text_eq t (codes "done")) _ _ _ _
                      (accepted-validate_done event)
                      λ h7.
                        accepted-branch (text_eq t (codes "broker_request")) _ _ _ _
                          (accepted-validate_broker_request event)
                          λ h8.
                            accepted-branch (text_eq t (codes "broker_response")) _ _ _ _
                              (accepted-validate_broker_response event)
                              λ h9. absurd (unlisted h1 h2 h3 h4 h5 h6 h7 h8 h9)
  where
    unlisted :
        text_eq t (codes "task") ≡ false
        → text_eq t (codes "user_reply") ≡ false
        → text_eq t (codes "stop") ≡ false
        → text_eq t (codes "agent_ready") ≡ false
        → text_eq t (codes "message") ≡ false
        → text_eq t (codes "action") ≡ false
        → text_eq t (codes "done") ≡ false
        → text_eq t (codes "broker_request") ≡ false
        → text_eq t (codes "broker_response") ≡ false
        → ⊥
    unlisted h1 h2 h3 h4 h5 h6 h7 h8 h9 = ground arith

meets-listed :
    (t : Text) (event : Dict) (rows : List Row)
    → elem t (map (λ (r : Row). r.type_name) rows) ≡ false
    → meets t event rows ≡ false
unfolding elem
meets-listed t event [] h = refl
meets-listed t event (r ∷ rows) h = ground (arith, meets-listed t event rows)

accepted-of_type :
    (t : Text) (event : Dict) (e : Text)
    → accepted (if not (elem t event_types) then value_error e else validate_typed t event)
      ≡ meets t event table
accepted-of_type t event e = elim (Bool-cases (elem t event_types)) [
  | inl listed ↦ rw listed (accepted-validate_typed t event listed)
  | inr unlisted ↦ rw unlisted (sym (meets-listed t event table unlisted))
]

accepted-by_type : (event : Dict) (o : Option Value) → accepted (by_type event o) ≡ of_type event o
unfolding by_type
accepted-by_type event (some (str t)) = accepted-of_type t event _
accepted-by_type event none = refl
accepted-by_type event (some null) = refl
accepted-by_type event (some (boolean b)) = refl
accepted-by_type event (some (int n)) = refl
accepted-by_type event (some (float n)) = refl
accepted-by_type event (some (list xs)) = refl
accepted-by_type event (some (tuple xs)) = refl
accepted-by_type event (some (dict d)) = refl

-- `validate_event` accepts exactly the events that meet the table: the type is one of the nine, each
-- field that the type requires is there and of its kind, and the further condition of the type holds.
pub accepted-validate_event : (event : Dict) → accepted (validate_event event) ≡ is_event event
unfolding validate_event
accepted-validate_event event = accepted-by_type event (get_field "type" event)
