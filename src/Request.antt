-- ===== src/Request.antt =====
-- server/mqtt/request.go: the requests and responses on a topic, as text with a first line, a
-- header and a body. `http.Header` is a list of canonical keys with their values in order. The
-- loops that read lines have fuel, since a source may never end.
pub mod Text
pub mod Trim
pub mod Words
pub mod Headers
pub mod Exact
pub mod Total
mod Tests
use kratos_transport_rpc.Prelude.{
  ℕ, zero, suc, ◌+◌, ◌-◌, Bool, true, false, ◌&&◌, ◌||◌, not, Option, none, some, List, [], ◌∷◌,
  ◌++◌, Bytes, length, take, drop, slice, index_byte, leb, ◌==◌, if◌then◌else◌,
}
use kratos_transport_rpc.Prelude.Text.{codes}
use kratos_transport_rpc.Prelude.Maps.{equal_bytes}
use kratos_transport_rpc.Io.{
  IoError, malformed_request, malformed_header, Outcome, done, hangs, ◌>>=◌, Read, is_none, is_eof,
}
use kratos_transport_rpc.Bufio.Reader.{Reader}
use kratos_transport_rpc.Bufio.Lines.{read_slice, read_line}

abbrev pub Header : Type 0
Header = List (Bytes × List Bytes)

pub record Request : Type 0 where
  pub method : Bytes
  pub request_uri : Bytes
  pub proto : Bytes
  pub host : Bytes
  pub header : Header
  pub body : Bytes

abbrev pub no_request : Request
no_request = record { method = []; request_uri = []; proto = []; host = []; header = []; body = [] }

abbrev pub is_upper : ℕ → Bool
is_upper x = leb b'A' x && leb x b'Z'

abbrev pub is_lower : ℕ → Bool
is_lower x = leb b'a' x && leb x b'z'

-- the bytes of a header's name in RFC 7230
unfoldable pub is_token : ℕ → Bool
unfolding index_byte
is_token x =
    is_upper x
    || is_lower x
    || leb b'0' x && leb x b'9'
    || not (is_none (index_byte (codes "!#$%&'*+-.^_`|~") x))

unfoldable pub all_token : Bytes → Bool
unfolding is_token
all_token [] = true
all_token (x ∷ xs) = is_token x && all_token xs

-- a capital first and after each dash, the others small
unfoldable pub canonical_from : Bool → Bytes → Bytes
canonical_from upper [] = []
canonical_from upper (x ∷ xs) =
    (if upper && is_lower x then x - 32 else if not upper && is_upper x then x + 32 else x)
    ∷ canonical_from (x == b'-') xs

-- `textproto.CanonicalMIMEHeaderKey`
unfoldable pub canonical_key : Bytes → Bytes
unfolding all_token canonical_from
canonical_key key = if all_token key then canonical_from true key else key

-- `header[key] = append(header[key], value)`
unfoldable pub append_value : Bytes → Bytes → Header → Header
unfolding equal_bytes
append_value key v [] = (key, v ∷ []) ∷ []
append_value key v ((k, vs) ∷ h) =
    if equal_bytes k key then (k, vs ++ (v ∷ [])) ∷ h else (k, vs) ∷ append_value key v h

-- `header.Add(key, value)`
unfoldable pub add_value : Bytes → Bytes → Header → Header
unfolding canonical_key append_value
add_value key v h = append_value (canonical_key key) v h

-- `header[key]`
unfoldable pub values : Bytes → Header → List Bytes
unfolding equal_bytes
values key [] = []
values key ((k, vs) ∷ h) = if equal_bytes k key then vs else values key h

abbrev pub first_value : List Bytes → Bytes
first_value [] = []
first_value (v ∷ vs) = v

-- `header.Get(key)`
unfoldable pub get_value : Bytes → Header → Bytes
unfolding canonical_key values
get_value key h = first_value (values (canonical_key key) h)

abbrev pub is_blank : ℕ → Bool
is_blank x = x == b' ' || x == b'\t'

-- the first loop of `trim`, and the one that skips the spaces before a value
unfoldable pub trim_left : Bytes → Bytes
trim_left [] = []
trim_left (x ∷ s) = if is_blank x then trim_left s else x ∷ s

-- the second loop of `trim`
unfoldable pub trim_right : Bytes → Bytes
trim_right [] = []
trim_right (x ∷ s) =
    let rest = trim_right s in if is_blank x && length rest == 0 then [] else x ∷ rest

unfoldable pub trim : Bytes → Bytes
unfolding trim_left trim_right
trim s = trim_right (trim_left s)

abbrev pub Parts : Type 0
Parts = Bytes × Bytes × Bytes

-- the parts of a line with a first space at s1, and a next one at s2 behind it
unfoldable pub split_second : Bytes → ℕ → Option ℕ → Option Parts
split_second line s1 none = none
split_second line s1 (some s2) =
    some (take s1 line, slice line (s1 + 1) (s2 + (s1 + 1)), drop (s2 + (s1 + 1) + 1) line)

unfoldable pub split_first : Bytes → Option ℕ → Option Parts
unfolding split_second index_byte
split_first line none = none
split_first line (some s1) = split_second line s1 (index_byte (drop (s1 + 1) line) b' ')

-- method, requestURI and proto, or nothing where ok is false
unfoldable pub parse_request_line : Bytes → Option Parts
unfolding split_first
parse_request_line line = split_first line (index_byte line b' ')

abbrev pub Lines : Type 0 → Type 0
Lines S = Outcome (Bytes × Option IoError × Reader S)

abbrev pub Headers : Type 0 → Type 0
Headers S = Outcome (Header × Bytes × Option IoError × Reader S)

module _ {S : Type 0} (read : Read S) where
  -- `readLine`, with the parts of the line that have come
  unfoldable pub read_full_line : ℕ → Bytes → Reader S → Lines S
  unfolding read_line
  read_full_line zero line b = hangs
  read_full_line (suc f) line b = read_line read b >>= λ (l, more, e, b').
      if not (is_none e)
      then done ([], e, b')
      else elim more [ true ↦ read_full_line f (line ++ l) b' | false ↦ done (line ++ l, none, b') ]

  -- a line of the header that has a colon at i
  abbrev pub add_line : Bytes → ℕ → Header → Header
  add_line line i header = add_value (take i line) (trim_left (drop (i + 1) line)) header

  -- a line that is not empty, with its first colon
  unfoldable pub on_colon :
      (Header → Reader S → Headers S) → Header → Bytes → Reader S → Option ℕ → Headers S
  unfolding add_value trim_left
  on_colon next header line b none = done (header, [], some malformed_header, b)
  on_colon next header line b (some i) =
      if i == 0
      then done (header, [], some malformed_header, b)
      else next (add_line line i header) b

  -- what `readMIMEHeader` does with a line; `next` is the rest of its loop
  unfoldable pub on_line :
      (Header → Reader S → Headers S) → Header → Bytes × Option IoError × Reader S → Headers S
  unfolding trim read_slice on_colon index_byte
  on_line next header (full, e, b) =
      if not (is_none e)
      then done (header, [], e, b)
      else if length (trim full) == 0
      then (read_slice read 0 b >>= λ (body, e2, b2). done (header, body, e2, b2))
      else on_colon next header (trim full) b (index_byte (trim full) b':')

  -- the loop of `readMIMEHeader`, for at most n lines
  unfoldable pub read_header : ℕ → ℕ → Header → Reader S → Headers S
  unfolding read_full_line on_line
  read_header f zero header b = hangs
  read_header f (suc n) header b = read_full_line f [] b >>= on_line (read_header f n) header

  -- `ReadRequest` behind its first line
  unfoldable pub read_rest :
      ℕ → Parts → Reader S → Outcome (Option Request × Option IoError × Reader S)
  unfolding read_header get_value
  read_rest f (method, uri, proto) b = read_header f f [] b >>= λ (header, body, e, b').
      let req : Request = record {
        method = method;
        request_uri = uri;
        proto = proto;
        host = [];
        header = header;
        body = body;
      } in
      if not (is_none e) && not (is_eof e)
      then done (some req, e, b')
      else done (some (record req { host = get_value (codes "Host") header }), none, b')

  -- `ReadRequest` with the parts of its first line
  unfoldable pub read_parts :
      ℕ → Option Parts → Reader S → Outcome (Option Request × Option IoError × Reader S)
  unfolding read_rest
  read_parts f none b = done (none, some malformed_request, b)
  read_parts f (some parts) b = read_rest f parts b

  -- The loops may take f rounds each.
  unfoldable pub read_request : ℕ → Reader S → Outcome (Option Request × Option IoError × Reader S)
  unfolding read_full_line parse_request_line read_parts
  read_request f b = read_full_line f [] b >>= λ (line, e, b').
      if not (is_none e)
      then done (some no_request, e, b')
      else read_parts f (parse_request_line line) b'
