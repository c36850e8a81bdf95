-- ===== src/Rpc.antt =====
-- The handler that RegRoute of server/mqtt/server.go subscribes, the routes of
-- server/mqtt/route.go, what Send of server/mqtt/client.go registers and publishes, and Marshal
-- of broker/encoding.go. `chain` is what `middleware.Chain` makes of the server's middleware,
-- which is the handler itself where there is none; nothing sets any. Parameters are the codecs,
-- gob, the handlers and middleware, and the MQTT client. S are the states of the service that
-- handlers change, V the values of other types than bytes and strings.
pub mod Answers
pub mod Calls
pub mod Signals
pub mod Responses
pub mod Setup
mod Tests
use kratos_transport_rpc.Prelude.{
  ℕ, zero, suc, Bool, true, false, Option, none, some, List, [], ◌∷◌, ◌++◌, Bytes, length, ◌==◌,
  if◌then◌else◌,
}
use kratos_transport_rpc.Prelude.Text.{codes}
use kratos_transport_rpc.Prelude.Maps.{TextMap, lookup, store, equal_bytes}
use kratos_transport_rpc.Io.{IoError, Outcome, done, panics, index_bounds, nil_pointer, ◌>>=◌}
use kratos_transport_rpc.Io.Memory.{string_read}
use kratos_transport_rpc.Bufio.Reader.{Reader, new_reader}
use kratos_transport_rpc.ByteWriter.{ByteWriter, buffer}
use kratos_transport_rpc.Wire.{content_type, message_id, response_message}
use kratos_transport_rpc.Request.{Request, Header, read_request}
use kratos_transport_rpc.Transport.{
  BrokerError, Client, Server, SubscribeOption, publish, register_subscriber,
}

pub data Result (A : Type 0) : Type 0 where
  ok : A → Result A
  err : ℕ → Result A

-- `broker.Any`
pub data Any (V : Type 0) : Type 0 where
  nil : Any V
  bytes : Bytes → Any V
  text : Bytes → Any V
  value : V → Any V

-- `unmarshal` gives what its second argument has become; its error is not looked at.
pub record Codec (V : Type 0) : Type 0 where
  pub marshal : Any V → Result Bytes
  pub unmarshal : Bytes → Any V → Any V

abbrev pub message_is_nil : ℕ
message_is_nil = 0

module _ {V : Type 0} (gob : V → Result Bytes) where
  -- `Marshal` of a message that is not nil, without a codec
  unfoldable pub marshal_plain : Any V → Result Bytes
  marshal_plain nil = err message_is_nil
  marshal_plain (bytes b) = ok b
  marshal_plain (text t) = ok t
  marshal_plain (value v) = gob v

  -- `Marshal`
  unfoldable pub marshal : Option (Codec V) → Any V → Result Bytes
  unfolding marshal_plain
  marshal codec nil = err message_is_nil
  marshal (some c) msg = c.marshal msg
  marshal none msg = marshal_plain msg

abbrev pub Handler : Type 0 → Type 0 → Type 0
Handler S V = Any V → S → Result (Any V) × S

-- `bind`, with what its binder makes
pub record Bind (S V : Type 0) : Type 0 where
  pub handler : Handler S V
  pub binder : Any V

abbrev pub Route : Type 0 → Type 0 → Type 0
Route S V = TextMap (Bind S V)

unfoldable pub new_router : {S V : Type 0} → Route S V
new_router = []

-- `Router.REQ`
unfoldable pub req : {S V : Type 0} → Bytes → Handler S V → Any V → Route S V → Route S V
unfolding store
req method handler binder route = store method (record { handler = handler; binder = binder }) route

pub data RpcError : Type 0 where
  reading : IoError → RpcError
  no_body : RpcError
  not_registered : Bytes → RpcError
  service_error : ℕ → RpcError

-- `contentType, ok := request.Header[broker.ContentType]` and the choice of the codec
unfoldable pub codec_of : Option (List Bytes) → Bytes
unfolding equal_bytes
codec_of none = codes "json"
codec_of (some []) = codes "json"
codec_of (some (v ∷ vs)) =
    if equal_bytes v (codes "appcation/proto") then codes "proto" else codes "json"

-- `request.Header[key]` of a key that may be missing
abbrev pub values_of : Option (List Bytes) → List Bytes
values_of none = []
values_of (some vs) = vs

pub record World (S C : Type 0) : Type 0 where
  pub service : S
  pub client : C

abbrev pub Handled : Type 0 → Type 0 → Type 0
Handled S C = Outcome (Option RpcError × World S C)

module _ {S V C H : Type 0} (gob : V → Result Bytes) (get_codec : Bytes → Option (Codec V))
    (chain : Handler S V → Handler S V) (mqtt : Client C H) (srv_codec topic : Bytes)
    (route : Route S V) where
  -- `PublishRaw` of the response, whose error is dropped
  unfoldable pub respond : List Bytes → Bytes → Result Bytes → World S C → Handled S C
  unfolding response_message publish
  respond types msg_id (err e) w = done (some (service_error e), w)
  respond types msg_id (ok buf) w =
      let message = buffer (response_message types msg_id buf) in
      done (
        none,
        record w { client = (publish mqtt (topic ++ codes "/resp") message none none w.client).1 },
      )

  -- behind the handler; the header may have no message id
  unfoldable pub on_result : Header → List Bytes → Result (Any V) × S → World S C → Handled S C
  unfolding respond marshal lookup
  on_result header ids (err e, s) w = done (some (service_error e), record w { service = s })
  on_result header [] (ok resp, s) w = panics index_bounds
  on_result header (id ∷ ids) (ok resp, s) w =
      respond (values_of (lookup content_type header)) id (marshal gob (get_codec srv_codec) resp)
        (record w { service = s })

  -- behind the lookup of the route and the codec
  unfoldable pub on_bind : Request → Option (Bind S V) → Option (Codec V) → World S C → Handled S C
  unfolding on_result lookup
  on_bind request none codec w = done (some (not_registered request.request_uri), w)
  on_bind request (some bind) none w = panics nil_pointer
  on_bind request (some bind) (some codec) w =
      on_result request.header (values_of (lookup message_id request.header))
        (chain bind.handler (codec.unmarshal request.body bind.binder) w.service) w

  unfoldable pub on_request :
      World S C → Option Request × Option IoError × Reader Bytes → Handled S C
  unfolding on_bind codec_of lookup
  on_request w (request, some e, b) = done (some (reading e), w)
  on_request w (none, none, b) = panics nil_pointer
  on_request w (some request, none, b) =
      if length request.body == 0
      then done (some no_body, w)
      else on_bind request (lookup request.request_uri route)
          (get_codec (codec_of (lookup content_type request.header))) w

  -- the handler of `RegRoute` on the bytes of a message; reading has f rounds
  unfoldable pub handle : ℕ → Bytes → World S C → Handled S C
  unfolding on_request read_request new_reader
  handle f raw w = read_request string_read f (new_reader raw) >>= on_request w

-- How the callback of `Send` ends: it returns, or it waits at `ch <- struct{}{}` for someone to take
-- the value that the channel holds.
pub data Ending : Type 0 where
  returned : Option RpcError → Ending
  waiting : Ending

-- what the callback leaves: its ending, `req`, and the number of values in `ch`, which has room for one
abbrev pub Received : Type 0 → Type 0
Received V = Outcome (Ending × Any V × ℕ)

-- `ch <- struct{}{}` and `return nil`
unfoldable pub signal : ℕ → Ending × ℕ
signal zero = (returned none, 1)
signal (suc held) = (waiting, suc held)

module _ {V : Type 0} (get_codec : Bytes → Option (Codec V)) where
  unfoldable pub fill_out : Bytes → Any V → ℕ → Option (Codec V) → Received V
  unfolding signal
  fill_out body out held none = panics nil_pointer
  fill_out body out held (some codec) =
      let (ending, held1) = signal held in done (ending, codec.unmarshal body out, held1)

  unfoldable pub on_reply : Any V → ℕ → Option Request × Option IoError × Reader Bytes → Received V
  unfolding fill_out codec_of lookup
  on_reply out held (request, some e, b) = done (returned (some (reading e)), out, held)
  on_reply out held (none, none, b) = panics nil_pointer
  on_reply out held (some request, none, b) =
      if length request.body == 0
      then done (returned (some no_body), out, held)
      else fill_out request.body out held
          (get_codec (codec_of (lookup content_type request.header)))

  -- the callback of `Send` on a message, with `req` and the number of values in `ch`
  unfoldable pub receive : ℕ → Bytes → Any V → ℕ → Received V
  unfolding on_reply read_request new_reader
  receive f raw out held = read_request string_read f (new_reader raw) >>= on_reply out held

-- `Send` up to its wait: it subscribes the callback, whose error is dropped, and publishes.
unfoldable pub send :
    {C H : Type 0}
    → Client C H
    → ByteWriter
    → Bytes
    → SubscribeOption H
    → Server C H
    → Option BrokerError × Server C H
unfolding register_subscriber publish
send mqtt wr topic callback s =
    let s1 = (register_subscriber mqtt (topic ++ codes "/resp") callback s).1 in
    let (e, c) = publish mqtt (topic ++ codes "/req") (buffer wr) none none s1.broker in
    (e, record s1 { broker = c })
