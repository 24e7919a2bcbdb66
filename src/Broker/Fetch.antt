-- ===== src/Broker/Fetch.antt =====
-- sandbox/broker.py: `RequestBroker._execute`, one request and its response, cut at a size.
use strange_claw.Prelude.{
  ℕ, ◌+◌, ◌-◌, Bool, true, false, Option, none, some, List, [], ◌∷◌, ◌++◌, ltb, take, length,
  if◌then◌else◌,
}
use strange_claw.Prelude.Int.{pos}
use strange_claw.Text.{Text, codes, or_else}
use strange_claw.Assoc.{Headers}
use strange_claw.Value.{boolean, int, str, dict, Dict, empty, entry, name, field}
use strange_claw.Python.{
  Platform, Outcome, returned, raised, Stream, finished, broken, chunk, Reply, response,
  request_exception, Outbound,
}
use strange_claw.Broker.Host.{Exec, pure, lift, ◌>>=◌, request}
pub mod Limit

-- What the loop over `iter_content` leaves: the joined chunks and `truncated`, or how it broke off.
pub data Body : Type 0 where
  complete : List ℕ → Bool → Body
  broke : Text → Text → Body
  crashed : Text → Body

-- The chunks read so far are `raw`, of `total` bytes. The rest of the body is not read after a cut.
unfoldable pub read_body : ℕ → List ℕ → ℕ → Stream → Body
read_body max_bytes raw total finished = complete raw false
read_body max_bytes raw total (broken e detail) = broke e detail
read_body max_bytes raw total (Stream.crashed e) = crashed e
read_body max_bytes raw total (chunk [] rest) = read_body max_bytes raw total rest
read_body max_bytes raw total (chunk (b ∷ bs) rest) =
    let next = read_body max_bytes (raw ++ b ∷ bs) (total + length (b ∷ bs)) rest in
    if ltb max_bytes (total + length (b ∷ bs))
    then complete (raw ++ take (max_bytes - total) (b ∷ bs)) true
    else next

-- `dict(response.headers)`
pub header_dict : Headers → Dict
header_dict [] = empty
header_dict ((k, v) ∷ hs) = entry (name k) (str v) (header_dict hs)

module _ {W : Type 0} (py : Platform W) where
  abbrev failure : Text → Text → Dict
  failure e detail =
      field "success" (boolean false) (field "error" (str e) (field "detail" (str detail) empty))

  abbrev encoding_of : Bool → Option Text → Text
  encoding_of true encoding = codes "utf-8"
  encoding_of false encoding = elim encoding [
    | none ↦ codes "utf-8"
    | some e ↦ or_else e (codes "utf-8")
  ]

  success : ℕ → Headers → Bool → Text → Dict
  unfolding header_dict
  success status headers truncated body_text = field "success" (boolean true) (
      field "status_code" (int (pos status)) (
        field "headers" (dict (header_dict headers))
          (field "body" (str body_text) (field "truncated" (boolean truncated) empty))))

  decoded : ℕ → Headers → Bool → Outcome Text → Outcome Dict
  unfolding success
  decoded status headers truncated (returned t) = returned (success status headers truncated t)
  decoded status headers truncated (raised e) = raised e

  finish : ℕ → Headers → Text → Body → Outcome Dict
  unfolding decoded
  finish status headers encoding (complete raw truncated) =
      decoded status headers truncated (py.decode encoding raw)
  finish status headers encoding (broke e detail) = returned (failure e detail)
  finish status headers encoding (crashed e) = raised e

  receive : ℕ → Bool → Reply → Outcome Dict
  unfolding finish read_body
  receive max_bytes decode_utf8 (response status headers encoding stream) =
      finish status headers (encoding_of decode_utf8 encoding) (read_body max_bytes [] 0 stream)
  receive max_bytes decode_utf8 (request_exception e detail) = returned (failure e detail)
  receive max_bytes decode_utf8 (Reply.crashed e) = raised e

  unfoldable pub execute : Outbound → ℕ → Bool → Exec W Dict
  unfolding receive
  execute o max_bytes decode_utf8 = do
    reply ← request py o
    lift (receive max_bytes decode_utf8 reply)
