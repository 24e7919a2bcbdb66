-- ===== src/Python.antt =====
-- What the code calls and does not contain: the interpreter's text and number conversions, the
-- standard library's URL, JSON and address functions, and the network and the clock, which read and
-- change the world `W`. The theorems hold for every such platform; the laws that one needs are its
-- hypotheses.
use strange_claw.Prelude.{◌≡◌, refl, ◌⊎◌, inl, inr, ℕ, Bool, Option, List}
use strange_claw.Prelude.Int.{ℤ}
use strange_claw.Text.{Text}
use strange_claw.Value.{Value, str}

-- What a call gives, or the text of the exception that it raises.
pub data Outcome {ℓ} (A : Type ℓ) : Type ℓ where
  returned : A → Outcome A
  raised : Text → Outcome A

pub Outcome-cases {ℓ} :
    {A : Type ℓ} (r : Outcome A) → ((a : A) × (r ≡ returned a)) ⊎ ((e : Text) × (r ≡ raised e))
Outcome-cases (returned a) = inl (a, refl)
Outcome-cases (raised e) = inr (e, refl)

-- `urlparse(url)`, as far as the code reads it. `hostname` is None or a text.
pub record Url : Type 0 where
  pub scheme : Text
  pub hostname : Option Text
  pub path : Text

-- `urlsplit(url)`
pub record SplitUrl : Type 0 where
  pub scheme : Text
  pub netloc : Text
  pub path : Text
  pub query : Text
  pub fragment : Text

-- `int(value)`: a number, a ValueError or TypeError, or another exception (an infinite float).
pub data Conversion : Type 0 where
  number : ℤ → Conversion
  invalid : Conversion
  overflow : Text → Conversion

-- `float(value)`: a finite number, an infinite one, `nan`; a ValueError or TypeError; or another exception.
pub data Ticks : Type 0 where
  finite_ticks : ℤ → Ticks
  plus_infinity : Ticks
  minus_infinity : Ticks
  not_a_number : Ticks
  no_float : Ticks
  too_large : Text → Ticks

-- `json.loads(text)`: a value, a JSONDecodeError, or another exception.
pub data Loaded : Type 0 where
  value : Value → Loaded
  decode_error : Text → Loaded
  failed : Text → Loaded

-- `ipaddress.ip_address`: an address is its number.
pub data IpAddress : Type 0 where
  v4 : ℕ → IpAddress
  v6 : ℕ → IpAddress

-- `socket.getaddrinfo(hostname, None)`: for each entry the text of `sockaddr[0]`, or nothing where
-- `sockaddr` is no tuple or empty; a gaierror; or another exception.
pub data Resolution : Type 0 where
  infos : List (Option Text) → Resolution
  gaierror : Resolution
  crashed : Text → Resolution

-- The chunks that `response.iter_content` yields, and how it ends: at the end of the body, with a
-- RequestException (its class and text), or with another exception.
pub data Stream : Type 0 where
  finished : Stream
  broken : Text → Text → Stream
  crashed : Text → Stream
  chunk : List ℕ → Stream → Stream

-- `requests.Session().request(...)` with redirects off and `stream=True`.
pub data Reply : Type 0 where
  response : ℕ → List (Text × Text) → Option Text → Stream → Reply
  request_exception : Text → Text → Reply
  crashed : Text → Reply

-- What is handed to the network.
pub record Outbound : Type 0 where
  pub method : Text
  pub url : Text
  pub headers : List (Text × Text)
  pub body : Option Text

pub record Platform (W : Type 0) : Type 0 where
  pub lower : Text → Text
  pub upper : Text → Text
  pub strip : Text → Text
  -- `str(value)` of what is no text, and the text of a list of texts in an f-string
  pub str_of : Value → Text
  pub repr_list : List Text → Text
  pub int_of_str : Text → Conversion
  pub int_of_float : ℕ → Conversion
  -- `float(value)`, in ticks of the clock
  pub ticks : Value → Ticks
  pub fnmatch : Text → Text → Bool
  pub urlparse : Text → Outcome Url
  pub urljoin : Text → Text → Outcome Text
  pub urlsplit : Text → Outcome SplitUrl
  pub urlunsplit : SplitUrl → Text
  -- `parse_qsl(query, keep_blank_values=True)` and `urlencode(pairs)`
  pub parse_qsl : Text → Outcome (List (Text × Text))
  pub urlencode : List (Text × Text) → Text
  pub json_loads : Text → Loaded
  -- `raw.decode(encoding, errors="replace")`
  pub decode : Text → List ℕ → Outcome Text
  pub ip_address : Text → Option IpAddress
  pub ip_text : IpAddress → Text
  pub is_private : IpAddress → Bool
  -- the network and the clock
  pub getaddrinfo : Text → W → Resolution × W
  pub request : Outbound → W → Reply × W
  pub monotonic : W → ℕ × W

-- `str(value)`
unfoldable pub to_str : {W : Type 0} → Platform W → Value → Text
to_str py (str s) = s
to_str py v = py.str_of v
