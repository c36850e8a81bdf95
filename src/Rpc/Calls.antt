-- ===== src/Rpc/Calls.antt =====
-- A call from end to end: Invoke and Send of server/mqtt/client.go, the handler of RegRoute in
-- server/mqtt/server.go, and the callback of Send.
use kratos_transport_rpc.Prelude.{
  ℕ, ◌≡◌, subst, Option, none, some, [], ◌∷◌, ◌++◌, Bytes, Bool-cases, inl, inr, ◌≢◌,
}
use kratos_transport_rpc.Prelude.Text.{codes}
use kratos_transport_rpc.Prelude.Maps.{lookup, lookup-store, lookup-store_other}
use kratos_transport_rpc.Io.{done}
use kratos_transport_rpc.ByteWriter.{ByteWriter, buffer}
use kratos_transport_rpc.Wire.{request_message}
use kratos_transport_rpc.Wire.Messages.{response_text, buffer-response_message}
use kratos_transport_rpc.Transport.{Client, Server, SubscribeOption, publish, register_subscriber}
use kratos_transport_rpc.Rpc.{
  Result, ok, Any, Codec, marshal, Handler, Bind, Route, World, handle, returned, signal, receive,
  send,
}
use kratos_transport_rpc.Rpc.Answers.{Sendable, handle-answers}
use kratos_transport_rpc.Rpc.Responses.{Readable, receive-response_message}

-- A call from end to end. If a route is registered for the URI of what Invoke sends, the handler
-- of RegRoute calls the route's handler once, with the body that the json codec reads, and
-- publishes one message on the topic's "/resp"; from this message the callback of Send fills its
-- result with what the json codec makes of what Marshal has made of the response, and signals on its
-- channel, which holds nothing yet. The request and the response are ones that can be sent and that
-- fit the readers' buffers, there is a json codec, and the route's handler and Marshal return no
-- error.
pub handle-receive :
    {S V C H : Type 0} (gob : V → Result Bytes) (get_codec : Bytes → Option (Codec V))
    (chain : Handler S V → Handler S V) (mqtt : Client C H) (srv_codec topic : Bytes)
    (route : Route S V) (f : ℕ) (uri codec msg_id body : Bytes) (w : World S C) (bind : Bind S V)
    (json : Codec V) (resp result : Any V) (s : S) (out : Bytes)
    → Sendable f uri codec msg_id body
    → Readable f ((codes "application/" ++ codec) ∷ []) msg_id out
    → lookup uri route ≡ some bind
    → get_codec (codes "json") ≡ some json
    → chain bind.handler (json.unmarshal body bind.binder) w.service ≡ (ok resp, s)
    → marshal gob (get_codec srv_codec) resp ≡ ok out
    → (message : Bytes) × (handle gob get_codec chain mqtt srv_codec topic route f
          (buffer (request_message uri codec msg_id body))
          w
        ≡ done (
          none,
          record {
            service = s;
            client = (publish mqtt (topic ++ codes "/resp") message none none w.client).1;
          },
        ))
      × (receive get_codec f message result 0 ≡ done (returned none, json.unmarshal out result, 1))
unfolding signal
handle-receive gob get_codec chain mqtt srv_codec topic route f uri codec msg_id body w bind json
      resp result s out sendable readable found codec_eq called coded =
    let types = (codes "application/" ++ codec) ∷ [] in
    (
      response_text types msg_id out,
      handle-answers gob get_codec chain mqtt srv_codec topic route f uri codec msg_id body w
          sendable bind json resp s out found codec_eq called coded,
      subst
          (λ m. receive get_codec f m result 0 ≡ done (returned none, json.unmarshal out result, 1))
          (buffer-response_message types msg_id out)
          (receive-response_message f types msg_id out readable get_codec json result 0 codec_eq),
    )

-- Whether the broker is connected or not, and whatever subscribing and publishing return, Send
-- leaves its callback among the subscribers of the server under the topic's "/resp", in place of
-- an earlier one, and the other subscribers as they were.
pub send-stored :
    {C H : Type 0} (mqtt : Client C H) (wr : ByteWriter) (topic : Bytes)
    (callback : SubscribeOption H) (s : Server C H)
    → (lookup (topic ++ codes "/resp") (send mqtt wr topic callback s).1.subscriber_opts
        ≡ some callback)
      × ((other : Bytes)
          → topic ++ codes "/resp" ≢ other
          → lookup other (send mqtt wr topic callback s).1.subscriber_opts
            ≡ lookup other s.subscriber_opts)
unfolding send register_subscriber
send-stored mqtt wr topic callback s =
    let key = topic ++ codes "/resp" in
    elim (Bool-cases s.started) [
      | inl e ↦ (
        rw e (lookup-store key callback s.subscriber_opts),
        λ other apart. rw e (lookup-store_other key other callback s.subscriber_opts apart),
      )
      | inr e ↦ (
        rw e (lookup-store key callback s.subscriber_opts),
        λ other apart. rw e (lookup-store_other key other callback s.subscriber_opts apart),
      )
    ]
