-- ===== src/Agent/Transport/Framing.antt =====
-- An event that is sent is received, however the stream is cut.
use strange_claw.Prelude.{
  ℕ, ◌==◌, ◌≡◌, refl, false, ◌⊎◌, inl, inr, none, some, List, [], ◌∷◌, ◌++◌, append_assoc,
  append-nil, All, ◌∙◌,
}
use strange_claw.Text.{Text, is_empty}
use strange_claw.Value.{dict, Dict}
use strange_claw.Python.{Platform, value}
use strange_claw.Broker.Checked.{Checked, ok, value_error, crashed, ◌>>=◌, ◌>>◌}
use strange_claw.Agent.Protocol.{validate_event}
use strange_claw.Agent.Transport.{
  Chunk, chunk, Socket, Received, got, with_line_end, encode_event, extract_line, decode_event,
  receive_in, receive,
}

abbrev pub IsLine : Text → Type 0
IsLine s = All (λ c. (c == 10) ≡ false) s

-- The text of the chunks
abbrev pub joined : List (ℕ × Text) → Text
joined [] = []
joined ((c, s) ∷ ss) = (c ∷ s) ++ joined ss

abbrev pub chunks : List (ℕ × Text) → List Chunk
chunks [] = []
chunks ((c, s) ∷ ss) = chunk c s ∷ chunks ss

extract_line-whole :
    (s rest : Text) → IsLine s → extract_line (s ++ 10 ∷ rest) ≡ some (with_line_end s, rest)
unfolding extract_line
extract_line-whole [] rest h = refl
extract_line-whole (c ∷ s) rest h = rw h.0 (rw (extract_line-whole s rest h.1) refl)

-- The buffer has the first line, or no line.
extract_line-part :
    (b more s rest : Text)
    → b ++ more ≡ s ++ 10 ∷ rest
    → IsLine s
    → ((left : Text) × (extract_line b ≡ some (with_line_end s, left)) × (left ++ more ≡ rest))
      ⊎ (extract_line b ≡ none)
unfolding extract_line
extract_line-part [] more s rest e h = inr refl
extract_line-part (c ∷ b) more [] rest e h = let same : c ≡ 10 = cc in inl (b, rw same refl, cc)
extract_line-part (c ∷ b) more (d ∷ s) rest e h =
    let same : c ≡ d = cc in
    let tails : b ++ more ≡ s ++ 10 ∷ rest = cc in
    elim (extract_line-part b more s rest tails h.1) [
      | inl (left, found_it, rest_is) ↦ inl (left, rw same (rw h.0 (rw found_it refl)), rest_is)
      | inr missing ↦ inr (rw same (rw h.0 (rw missing refl)))
    ]

module _ {W : Type 0} (py : Platform W) (dumps : Dict → Text) (event : Dict) where
  -- What `json.dumps`, `json.loads` and `strip` promise of the event: a text on one line, which is not
  -- empty and has no space around it, and which is read back.
  pub record IsCoded : Type 0 where
    pub one_line : IsLine (dumps event)
    pub stripped : py.strip (with_line_end (dumps event)) ≡ dumps event
    pub some_text : is_empty (dumps event) ≡ false
    pub read_back : py.json_loads (dumps event) ≡ value (dict event)

  sent_line :
      (x : Checked (Unit {0})) (line : Text)
      → (x >> ok (with_line_end (dumps event))) ≡ ok line
      → (x ≡ ok tt) × (with_line_end (dumps event) ≡ line)
  unfolding ◌>>=◌
  sent_line (ok tt) line e = (refl, cc)
  sent_line (value_error x) line e = absurd (cc)
  sent_line (crashed x) line e = absurd (cc)

  decode_event-sent :
      IsCoded
      → validate_event event ≡ ok tt
      → decode_event py (with_line_end (dumps event)) ≡ ok event
  unfolding decode_event ◌>>=◌
  decode_event-sent coded v =
      rw coded.stripped (rw coded.some_text (rw coded.read_back (rw v refl)))

  -- The event arrives, and what is left is what follows its line.
  abbrev pub Arrives : Text → Received × Socket → Type 0
  Arrives rest x =
      (x.0 ≡ got event)
      × ((ss : List (ℕ × Text)) × (x.1.incoming ≡ chunks ss) × (x.1.buffer ++ joined ss ≡ rest))

  receive_in-Arrives :
      (ss : List (ℕ × Text)) (buffer rest : Text)
      → IsCoded
      → validate_event event ≡ ok tt
      → buffer ++ joined ss ≡ dumps event ++ 10 ∷ rest
      → Arrives rest (receive_in py (chunks ss) buffer)
  unfolding receive_in
  receive_in-Arrives [] buffer rest coded v e =
      let whole : buffer ≡ dumps event ++ 10 ∷ rest = cc (append-nil buffer) in
      rw whole (
        rw (extract_line-whole (dumps event) rest coded.one_line)
          (rw (decode_event-sent coded v) (refl, ([], refl, append-nil rest))))
  receive_in-Arrives ((c, s) ∷ ss) buffer rest coded v e =
      elim (extract_line-part buffer ((c ∷ s) ++ joined ss) (dumps event) rest e coded.one_line) [
        | inl (left, found_it, rest_is) ↦
            rw found_it (rw (decode_event-sent coded v) (refl, ((c, s) ∷ ss, refl, rest_is)))
        | inr missing ↦ rw missing (
            receive_in-Arrives ss (buffer ++ c ∷ s) rest coded v
              (cc (append_assoc buffer (c ∷ s) (joined ss))))
      ]

  -- If an event was encoded to a line, and the buffer and the chunks to come begin with that line,
  -- however they are cut, then the next event received is that event, and what is left is what follows the line.
  pub receive-encode_event :
      (ss : List (ℕ × Text)) (buffer line rest : Text)
      → IsCoded
      → encode_event dumps event ≡ ok line
      → buffer ++ joined ss ≡ line ++ rest
      → Arrives rest (receive py (record { buffer = buffer; incoming = chunks ss }))
  unfolding receive encode_event
  receive-encode_event ss buffer line rest coded encoded e =
      let sent = sent_line (validate_event event) line encoded in
      receive_in-Arrives ss buffer rest coded sent.0
        (e ∙ (rw (← sent.1) (append_assoc (dumps event) (10 ∷ []) rest)))
