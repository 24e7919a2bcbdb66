-- ===== src/Agent/Transport.antt =====
-- agent/protocol.py: `encode_event`, `decode_event`; agent/transport.py: `VsockTransport.receive` and
-- `_extract_line`. What `recv` gives is a list of chunks, as decoded texts.
use strange_claw.Prelude.{ℕ, ◌==◌, Option, none, some, List, [], ◌∷◌, ◌++◌, if◌then◌else◌}
use strange_claw.Text.{Text, codes, is_empty}
use strange_claw.Value.{Value, dict, Dict}
use strange_claw.Python.{Platform, Loaded, value, decode_error, failed}
use strange_claw.Broker.Checked.{Checked, ok, value_error, crashed, ◌>>=◌, ◌>>◌}
use strange_claw.Agent.Protocol.{validate_event}
pub mod Framing

-- What `recv` does: bytes that decode to a text, by its first code point and the others; bytes that do
-- not decode by themselves, with the UnicodeDecodeError; a timeout (or the deadline has passed); an
-- OSError; or no bytes, the end of the stream.
pub data Chunk : Type 0 where
  chunk : ℕ → Text → Chunk
  undecodable : Text → Chunk
  timeout : Chunk
  broken : Text → Chunk
  closed : Chunk

pub record Socket : Type 0 where
  pub buffer : Text
  pub incoming : List Chunk

-- What `receive` does: an event, None, an exception; or it waits for ever.
pub data Received : Type 0 where
  got : Dict → Received
  nothing : Received
  failure : Text → Received
  waiting : Received

abbrev pub with_line_end : Text → Text
with_line_end s = s ++ 10 ∷ []

unfoldable pub encode_event : (Dict → Text) → Dict → Checked Text
encode_event dumps event = validate_event event >> ok (with_line_end (dumps event))

-- `_extract_line`: the line with its end, and the rest of the buffer
abbrev push : ℕ → Option (Text × Text) → Option (Text × Text)
push c none = none
push c (some (line, rest)) = some (c ∷ line, rest)

unfoldable pub extract_line : Text → Option (Text × Text)
extract_line [] = none
extract_line (c ∷ cs) =
    let later = extract_line cs in if c == 10 then some (c ∷ [], cs) else push c later

module _ {W : Type 0} (py : Platform W) where
  abbrev valid : Dict → Checked Dict
  valid event = validate_event event >> ok event

  abbrev parsed_event : Loaded → Checked Dict
  parsed_event (value (dict event)) = valid event
  parsed_event (value _) = value_error (codes "Decoded event must be a JSON object.")
  parsed_event (decode_error e) = value_error (codes "Invalid JSON event: " ++ e)
  parsed_event (failed e) = crashed e

  abbrev decode_text : Text → Checked Dict
  decode_text s =
      if is_empty s
      then value_error (codes "Cannot decode empty event line.")
      else parsed_event (py.json_loads s)

  unfoldable pub decode_event : Text → Checked Dict
  decode_event line = decode_text (py.strip line)

  abbrev received : Checked Dict → Received
  received (ok event) = got event
  received (value_error e) = failure e
  received (crashed e) = failure e

  abbrev after_line : Option (Text × Text) → List Chunk → Received × Socket → Received × Socket
  after_line (some (line, rest)) cs other =
      (received (decode_event line), record { buffer = rest; incoming = cs })
  after_line none cs other = other

  -- `receive`, by the chunks that are to come
  unfoldable pub receive_in : List Chunk → Text → Received × Socket
  receive_in [] buffer =
      after_line (extract_line buffer) [] (waiting, record { buffer = buffer; incoming = [] })
  receive_in (chunk c s ∷ cs) buffer =
      let later = receive_in cs (buffer ++ c ∷ s) in
      after_line (extract_line buffer) (chunk c s ∷ cs) later
  receive_in (undecodable e ∷ cs) buffer =
      after_line (extract_line buffer) (undecodable e ∷ cs)
        (failure e, record { buffer = buffer; incoming = cs })
  receive_in (timeout ∷ cs) buffer =
      after_line (extract_line buffer) (timeout ∷ cs)
        (nothing, record { buffer = buffer; incoming = cs })
  receive_in (broken e ∷ cs) buffer = after_line (extract_line buffer) (broken e ∷ cs) (
    failure (codes "Failed to receive event on socket transport: " ++ e),
    record { buffer = buffer; incoming = cs },
  )
  receive_in (closed ∷ cs) buffer = after_line (extract_line buffer) (closed ∷ cs) (
    failure (codes "Socket transport peer closed the connection."),
    record { buffer = buffer; incoming = cs },
  )

  unfoldable pub receive : Socket → Received × Socket
  receive s = receive_in s.incoming s.buffer
