-- ===== src/Agent/Protocol/Tests.antt =====
-- The round trip of an event whose line is cut in two, and before the start of another one.
use strange_claw.Prelude.{List, ℕ, ◌++◌, ◌==◌, refl, [], ◌∷◌, if◌then◌else◌}
use strange_claw.Text.{Text, codes, text_eq, elem}
use strange_claw.Value.{Dict, empty, field, text, dict, get, key_eq}
use strange_claw.Python.{Platform, Loaded, value, decode_error}
use strange_claw.Broker.Checked.{◌>>=◌}
use strange_claw.Agent.Protocol.{validate_event, validate_typed}
use strange_claw.Agent.Transport.{encode_event, receive}
use strange_claw.Agent.Transport.Framing.{chunks, Arrives, receive-encode_event}
use strange_claw.Example.{py}

abbrev stop_event : Dict
stop_event = field "type" (text "stop") empty

abbrev without_lines : Text → Text
without_lines [] = []
without_lines (c ∷ cs) = if c == 10 then without_lines cs else c ∷ without_lines cs

abbrev dumps : Dict → Text
dumps d = codes "stop"

abbrev loads : Text → Loaded
loads s = if text_eq s (codes "stop") then value (dict stop_event) else decode_error []

abbrev codec : Platform ℕ
codec = record py { strip = without_lines; json_loads = loads }

-- "o", and "p" with the line end and "bro"
abbrev pieces : List (ℕ × Text)
pieces = (b'o', []) ∷ (b'p', 10 ∷ codes "bro") ∷ []

receive-encode_event_example :
    Arrives codec dumps stop_event
      (codes "bro")
      (receive codec (record { buffer = codes "st"; incoming = chunks pieces }))
unfolding encode_event validate_event validate_typed get key_eq text_eq elem ◌>>=◌
receive-encode_event_example =
    receive-encode_event codec dumps stop_event pieces (codes "st") (codes "stop" ++ 10 ∷ [])
      (codes "bro")
      (record {
        one_line = (refl, (refl, (refl, (refl, tt))));
        stripped = refl;
        some_text = refl;
        read_back = refl;
      })
      refl refl
