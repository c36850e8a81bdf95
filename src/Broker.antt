-- ===== src/Broker.antt =====
-- broker/mqtt: the cache of cache.go with its log filter, the addresses of utils.go, and
-- FindHeader, publish, Subscribe, Connect and Disconnect of mqtt.go. The client of
-- paho.mqtt.golang is a parameter, and the clock is an argument.
pub mod Expiry
pub mod Braces
pub mod Addresses
mod Tests
use kratos_transport_rpc.Prelude.{
  ℕ, zero, suc, ◌+◌, ◌-◌, ◌*◌, ◌≤◌, Bool, true, false, ◌&&◌, ◌||◌, not, Option, none, some, List,
  [], ◌∷◌, ◌++◌, Bytes, length, drop, ltb, leb, ◌==◌, if◌then◌else◌,
}
use kratos_transport_rpc.Prelude.Text.{codes}
use kratos_transport_rpc.Prelude.Maps.{TextMap, lookup, store, remove, equal_bytes}
use kratos_transport_rpc.Io.{Outcome, done, panics, slice_bounds}
use kratos_transport_rpc.Wire.{decimal}

pub record Cache (V : Type 0) : Type 0 where
  pub entries : TextMap V
  pub timestamp : TextMap ℕ
  pub timeout : ℕ

module _ {V : Type 0} where
  unfoldable pub new_cache : ℕ → Cache V
  new_cache timeout = record { entries = []; timestamp = []; timeout = timeout }

  -- `Set` at the time `now`
  unfoldable pub set : ℕ → Bytes → V → Cache V → Cache V
  unfolding store
  set now key value c = record c {
    entries = store key value c.entries;
    timestamp = store key now c.timestamp;
  }

  unfoldable pub expire : Bytes → Cache V → Cache V
  unfolding remove
  expire key c = record c { entries = remove key c.entries; timestamp = remove key c.timestamp }

  -- `Get` with the value and the timestamp of the key
  unfoldable pub get_entry : ℕ → Bytes → Option V → Option ℕ → Cache V → Option V × Cache V
  unfolding expire
  get_entry now key none t c = (none, c)
  get_entry now key (some v) none c = (none, expire key c)
  get_entry now key (some v) (some t) c =
      if ltb c.timeout (now - t) then (none, expire key c) else (some v, c)

  -- `Get` at the time `now`
  unfoldable pub get : ℕ → Bytes → Cache V → Option V × Cache V
  unfolding get_entry lookup
  get now key c = get_entry now key (lookup key c.entries) (lookup key c.timestamp) c

-- `struct{}`
abbrev pub Empty : Type 0
Empty = Unit

-- `logFilter.Error`: whether the error is logged
unfoldable pub log_found : ℕ → Bytes → Option Empty × Cache Empty → Bool × Cache Empty
unfolding set
log_found now key (some x, c) = (false, c)
log_found now key (none, c) = (true, set now key tt c)

unfoldable pub log_error : ℕ → Bytes → Cache Empty → Bool × Cache Empty
unfolding log_found get
log_error now key c = log_found now key (get now key c)

-- the loop of `FindHeader` at position n; `count` is not 0 after the first byte
unfoldable pub find_loop : Bytes → ℕ → ℕ → ℕ
find_loop [] n count = 0
find_loop (x ∷ rest) n count =
    let opened = find_loop rest (n + 1) (count + 1) in
    let closed = find_loop rest (n + 1) (count - 1) in
    let other = find_loop rest (n + 1) count in
    if x == b'{'
    then opened
    else if x == b'}'
    then (if count == 1 then n + 1 else closed)
    else other

-- `pd[0]` panics on no bytes.
unfoldable pub find_header : Bytes → Outcome ℕ
unfolding find_loop
find_header [] = panics slice_bounds
find_header (x ∷ pd) = if not (x == b'{') then done 0 else done (find_loop (x ∷ pd) 0 0)

abbrev pub starts_with : Bytes → Bytes → Bool
starts_with [] s = true
starts_with (x ∷ sep) [] = false
starts_with (x ∷ sep) (y ∷ s) = x == y && starts_with sep s

-- the text before the first `sep`, and the text behind it
unfoldable pub cut : Bytes → Bytes → Bytes × Option Bytes
cut sep [] = ([], none)
cut sep (x ∷ s) =
    let (before, after) = cut sep s in
    if starts_with sep (x ∷ s) then ([], some (drop (length sep) (x ∷ s))) else (x ∷ before, after)

-- `strconv.ParseUint`: the digits, with the value of those before; out of range it stops with the
-- largest value, and `none` is a syntax error
unfoldable pub digits_value : ℕ → Bytes → Option ℕ
digits_value acc [] = some acc
digits_value acc (x ∷ s) =
    let n = acc * 10 + (x - 48) in
    let rest = digits_value n s in
    if leb 48 x && leb x 57
    then if ltb 18446744073709551615 n then some 18446744073709551615 else rest
    else none

-- `strconv.Atoi` of a number without its sign: 0 on a syntax error, `most` when it is out of range
unfoldable pub clamp : ℕ → Option ℕ → ℕ
clamp most none = 0
clamp most (some v) = if ltb most v then most else v

abbrev pub minus_if : Bool → Bytes → Bytes
minus_if true s = b'-' ∷ s
minus_if false s = s

-- `%d` of `Atoi` of a text that is not empty
unfoldable pub unsigned_port : Bytes → Bytes
unfolding digits_value clamp decimal
unsigned_port [] = codes "0"
unsigned_port (x ∷ s) = decimal (clamp 9223372036854775807 (digits_value 0 (x ∷ s)))

unfoldable pub negative_port : Bytes → Bytes
unfolding digits_value clamp decimal
negative_port [] = codes "0"
negative_port (x ∷ s) =
    let v = clamp 9223372036854775808 (digits_value 0 (x ∷ s)) in minus_if (ltb 0 v) (decimal v)

unfoldable pub port_text : Bytes → Bytes
unfolding unsigned_port negative_port
port_text [] = codes "0"
port_text (x ∷ s) =
    if x == b'-'
    then negative_port s
    else if x == b'+'
    then unsigned_port s
    else unsigned_port (x ∷ s)

unfoldable pub known_scheme : Bytes → Bool
unfolding equal_bytes
known_scheme s =
    equal_bytes s (codes "tcp") || equal_bytes s (codes "ssl") || equal_bytes s (codes "ws")

unfoldable pub default_port : Bytes → Bytes
unfolding equal_bytes
default_port scheme =
    if equal_bytes scheme (codes "tcp")
    then codes "1883"
    else if equal_bytes scheme (codes "ssl")
    then codes "8883"
    else codes "80"

abbrev pub text_or : Bytes → Option Bytes → Bytes
text_or d none = d
text_or d (some s) = s

-- `fmt.Sprintf("%s://%s:%d", scheme, host, port)`
abbrev pub join_address : Bytes → Bytes → Bytes → Bytes
join_address scheme host port = scheme ++ (codes "://" ++ (host ++ (codes ":" ++ port)))

-- host and port of `parts`, with what is behind the first colon
unfoldable pub complete : Bytes → Bytes × Option Bytes → Bytes
unfolding default_port port_text cut
complete scheme (host, none) = join_address scheme host (default_port scheme)
complete scheme (host, some rest) = join_address scheme host (port_text (cut (codes ":") rest).0)

-- an address with its scheme, or nothing for an unknown one
unfoldable pub with_scheme : Bytes → Bytes → List Bytes
unfolding known_scheme complete cut
with_scheme scheme rest =
    if known_scheme scheme then complete scheme (cut (codes ":") rest) ∷ [] else []

-- the body of the loop, behind `strings.Split(addr, "://")`
unfoldable pub split_address : Bytes × Option Bytes → List Bytes
unfolding with_scheme cut
split_address (whole, none) = with_scheme (codes "tcp") whole
split_address (scheme, some rest) = with_scheme scheme (cut (codes "://") rest).0

unfoldable pub address : Bytes → List Bytes
unfolding split_address cut
address addr = if length addr == 0 then [] else split_address (cut (codes "://") addr)

unfoldable pub all_addresses : List Bytes → List Bytes
unfolding address
all_addresses [] = []
all_addresses (a ∷ addrs) = address a ++ all_addresses addrs

abbrev pub default_address : List Bytes → List Bytes
default_address [] = codes "tcp://127.0.0.1:1883" ∷ []
default_address (a ∷ addrs) = a ∷ addrs

unfoldable pub set_addrs : List Bytes → List Bytes
unfolding all_addresses
set_addrs addrs = default_address (all_addresses addrs)
