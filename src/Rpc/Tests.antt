-- ===== src/Rpc/Tests.antt =====
-- server/mqtt/server.go, server/mqtt/route.go and server/mqtt/client.go: calls of a service that
-- counts them, over a client that keeps what is published.
use kratos_transport_rpc.Prelude.{
  ℕ, ◌+◌, ◌≡◌, refl, Option, none, some, List, [], ◌∷◌, map, Bytes, true, if◌then◌else◌, index_byte,
  index_byte-none, arith, ◌≢◌,
}
use kratos_transport_rpc.Prelude.Text.{codes}
use kratos_transport_rpc.Prelude.Maps.{lookup, equal_bytes}
use kratos_transport_rpc.Io.{done, panics, index_bounds}
use kratos_transport_rpc.ByteWriter.{buffer}
use kratos_transport_rpc.Wire.{request_message, decimal, listed}
use kratos_transport_rpc.Wire.Messages.{buffer-request_message, buffer-response_message}
use kratos_transport_rpc.Request.Words.{word_test, word_test_sound}
use kratos_transport_rpc.Transport.{Client, Server, SubscribeOption, publish}
use kratos_transport_rpc.Rpc.{
  Result, ok, err, Any, nil, value, Codec, marshal, Handler, Route, new_router, req, World, handle,
  returned, receive, send, on_result,
}
use kratos_transport_rpc.Rpc.Answers.{Sendable}
use kratos_transport_rpc.Rpc.Responses.{Readable}
use kratos_transport_rpc.Rpc.Signals.{Response, published, waiting_after, waiting_after-responses}
use kratos_transport_rpc.Rpc.Calls.{handle-receive, send-stored}

abbrev text_of : Any Bytes → Result Bytes
text_of (value v) = ok v
text_of _ = err 3

abbrev gob : Bytes → Result Bytes
gob v = ok v

-- a codec that leaves the bytes as they are
abbrev json : Codec Bytes
json = record { marshal = λ m. text_of m; unmarshal = λ b m. value b }

unfoldable get_codec : Bytes → Option (Codec Bytes)
unfolding equal_bytes
get_codec name = if equal_bytes name (codes "json") then some json else none

abbrev same : Handler ℕ Bytes → Handler ℕ Bytes
same h = h

abbrev mqtt : Client (List (Bytes × Bytes)) ℕ
mqtt = record {
  is_connected = λ c. true;
  connect = λ c. (none, c);
  disconnect = λ c. c;
  publish = λ topic qos retained buf c. (none, (topic, buf) ∷ c);
  subscribe = λ topic qos h c. (none, c);
}

-- It counts its calls, and answers with what it gets.
abbrev count : Handler ℕ Bytes
count m n = (ok m, n + 1)

abbrev refuse : Handler ℕ Bytes
refuse m n = (err 7, n + 1)

abbrev route : Route ℕ Bytes
unfolding req new_router
route = req (codes "/Hello") count nil (req (codes "/No") refuse nil new_router)

abbrev world : World ℕ (List (Bytes × Bytes))
world = record { service = 0; client = [] }

abbrev server : Server (List (Bytes × Bytes)) ℕ
server = record { started = true; err = none; subscriber_opts = []; broker = [] }

abbrev callback : SubscribeOption ℕ
callback = record { handler = 1; qos = none }

hello-Sendable : Sendable 4 (codes "/Hello") (codes "json") (codes "0d5e") (codes "{}")
unfolding word_test index_byte decimal
hello-Sendable = record {
  rounds = omega arith;
  uri_word = word_test_sound (codes "/Hello") refl;
  codec_word = word_test_sound (codes "json") refl;
  id_word = word_test_sound (codes "0d5e") refl;
  some_id = omega arith;
  some_body = omega arith;
  no_zero = index_byte-none (codes "{}") 0 refl;
  fits =
      rw (buffer-request_message (codes "/Hello") (codes "json") (codes "0d5e") (codes "{}"))
        (omega arith);
}

no-Sendable : Sendable 4 (codes "/No") (codes "json") (codes "0d5e") (codes "{}")
unfolding word_test index_byte decimal
no-Sendable = record {
  rounds = omega arith;
  uri_word = word_test_sound (codes "/No") refl;
  codec_word = word_test_sound (codes "json") refl;
  id_word = word_test_sound (codes "0d5e") refl;
  some_id = omega arith;
  some_body = omega arith;
  no_zero = index_byte-none (codes "{}") 0 refl;
  fits =
      rw (buffer-request_message (codes "/No") (codes "json") (codes "0d5e") (codes "{}"))
        (omega arith);
}

reply-Readable : Readable 4 (codes "application/json" ∷ []) (codes "0d5e") (codes "{}")
unfolding word_test index_byte decimal listed
reply-Readable = record {
  rounds = omega arith;
  types_word = word_test_sound (codes "application/json") refl;
  id_word = word_test_sound (codes "0d5e") refl;
  some_id = omega arith;
  some_body = omega arith;
  no_zero = index_byte-none (codes "{}") 0 refl;
  fits =
      rw (buffer-response_message (codes "application/json" ∷ []) (codes "0d5e") (codes "{}"))
        (omega arith);
}

-- the header has no message id
no_message_id :
    on_result gob get_codec same mqtt (codes "json") (codes "t") [] [] [] (ok nil, 1) world
    ≡ panics index_bounds
unfolding on_result
no_message_id = refl

handle-receive_example :
    (message : Bytes) × (handle gob get_codec same mqtt
        (codes "json")
        (codes "t")
        route
        4
        (buffer (request_message (codes "/Hello") (codes "json") (codes "0d5e") (codes "{}")))
        world
      ≡ done (
        none,
        record { service = 1; client = (publish mqtt (codes "t/resp") message none none []).1 },
      ))
    × (receive get_codec 4 message nil 0 ≡ done (returned none, value (codes "{}"), 1))
unfolding lookup marshal get_codec route
handle-receive_example =
    handle-receive gob get_codec same mqtt (codes "json") (codes "t") route 4 (codes "/Hello")
      (codes "json") (codes "0d5e") (codes "{}") world (record { handler = count; binder = nil })
      json (value (codes "{}")) nil 1 (codes "{}") hello-Sendable reply-Readable refl refl refl refl

send-stored_example :
    (lookup
        (codes "t/resp")
        (send mqtt
          (request_message (codes "/a") (codes "json") (codes "1") (codes "{}"))
          (codes "t")
          callback
          server).1.subscriber_opts
      ≡ some callback)
    × ((other : Bytes)
        → codes "t/resp" ≢ other
        → lookup other
            (send mqtt
              (request_message (codes "/a") (codes "json") (codes "1") (codes "{}"))
              (codes "t")
              callback
              server).1.subscriber_opts
          ≡ lookup other [])
send-stored_example =
    send-stored mqtt (request_message (codes "/a") (codes "json") (codes "1") (codes "{}"))
      (codes "t") callback server

abbrev reply : Response
reply = (codes "application/json" ∷ [], codes "0d5e", codes "{}")

waiting_after-responses_example :
    waiting_after get_codec 4 (map published (reply ∷ reply ∷ reply ∷ [])) nil 0 ≡ done 2
unfolding get_codec
waiting_after-responses_example =
    waiting_after-responses get_codec 4 json refl (reply ∷ reply ∷ reply ∷ []) nil
      (reply-Readable, (reply-Readable, (reply-Readable, tt)))
