-- ===== src/Rpc/Answers.antt =====
-- The handler of RegRoute in server/mqtt/server.go on what Invoke of server/mqtt/client.go sends.
use kratos_transport_rpc.Prelude.{
  ℕ, ◌≤◌, ◌<◌, ◌≡◌, ◌∙◌, Option, none, some, [], ◌∷◌, ◌++◌, Bytes, length, Lacks, ◌==◌, false,
  Bool-cases, inl, inr, ==_iff, arith,
}
use kratos_transport_rpc.Prelude.Text.{codes}
use kratos_transport_rpc.Prelude.Maps.{lookup, equal_bytes}
use kratos_transport_rpc.Io.{done}
use kratos_transport_rpc.Bufio.Reader.{default_buf_size}
use kratos_transport_rpc.ByteWriter.{buffer}
use kratos_transport_rpc.Wire.{request_message}
use kratos_transport_rpc.Wire.Messages.{response_text, buffer-response_message}
use kratos_transport_rpc.Request.Words.{IsWord}
use kratos_transport_rpc.Request.Exact.{read_request-request_message, sent_request}
use kratos_transport_rpc.Transport.{Client, publish}
use kratos_transport_rpc.Rpc.{
  Result, ok, err, Codec, marshal, Handler, Bind, Route, not_registered, service_error, World,
  respond, on_result, on_bind, on_request, handle, codec_of,
}

-- A request that `Invoke` can send and that fits the reader's buffer: words without space, tab or
-- newline, a message id and a body that are not empty, no zero byte in the body; and enough rounds.
pub record Sendable (f : ℕ) (uri codec msg_id body : Bytes) : Type 0 where
  pub rounds : 4 ≤ f
  pub uri_word : IsWord uri
  pub codec_word : IsWord codec
  pub id_word : IsWord msg_id
  pub some_id : 0 < length msg_id
  pub some_body : 0 < length body
  pub no_zero : Lacks 0 body
  pub fits : length (buffer (request_message uri codec msg_id body)) ≤ default_buf_size

pub not_empty : (n : ℕ) → 0 < n → (n == 0) ≡ false
not_empty n h = elim (Bool-cases (n == 0)) [
  | inl e ↦ absurd (let z = (==_iff n 0).0 e in omega (arith, z))
  | inr e ↦ e
]

module _ {S V C H : Type 0} (gob : V → Result Bytes) (get_codec : Bytes → Option (Codec V))
    (chain : Handler S V → Handler S V) (mqtt : Client C H) (srv_codec topic : Bytes)
    (route : Route S V) (f : ℕ) (uri codec msg_id body : Bytes) (w : World S C)
    (sendable : Sendable f uri codec msg_id body) where
  -- reading is done, and the body is there
  handle-read :
      handle gob get_codec chain mqtt srv_codec topic route f
        (buffer (request_message uri codec msg_id body))
        w
      ≡ on_bind gob get_codec chain mqtt srv_codec topic route
          (sent_request uri codec msg_id body)
          (lookup uri route)
          (get_codec (codes "json"))
          w
  unfolding handle on_request lookup codec_of equal_bytes
  handle-read =
      let (b1, eq, _) =
        read_request-request_message f uri codec msg_id body sendable.rounds sendable.uri_word
          sendable.codec_word sendable.id_word sendable.some_id sendable.no_zero sendable.fits in
      rw (eq, not_empty (length body) sendable.some_body)

  -- A request for a URI without a route is refused with the URI, nothing is published and the
  -- service is not called.
  pub handle-not_registered :
      lookup uri route ≡ none
      → handle gob get_codec chain mqtt srv_codec topic route f
          (buffer (request_message uri codec msg_id body))
          w
        ≡ done (some (not_registered uri), w)
  unfolding on_bind
  handle-not_registered missing = handle-read ∙ rw missing

  -- An error of the handler is the result, nothing is published, and the service keeps what the
  -- handler has done to it.
  pub handle-fails :
      (bind : Bind S V) (json : Codec V) (e : ℕ) (s : S)
      → lookup uri route ≡ some bind
      → get_codec (codes "json") ≡ some json
      → chain bind.handler (json.unmarshal body bind.binder) w.service ≡ (err e, s)
      → handle gob get_codec chain mqtt srv_codec topic route f
          (buffer (request_message uri codec msg_id body))
          w
        ≡ done (some (service_error e), record w { service = s })
  unfolding on_bind on_result
  handle-fails bind json e s found codec_eq called = handle-read ∙ rw (found, codec_eq, called)

  -- If a route is registered for the URI of what Invoke sends, the handler is called once, with
  -- the body that the json codec reads, and its response is published once on the topic's
  -- "/resp": a status line, the three headers with the id of the request, and what the server's
  -- codec makes of the response. The request is one that Invoke can send and that fits the
  -- reader's buffer, there is a json codec, the handler returns no error, and Marshal none.
  pub handle-answers :
      (bind : Bind S V) (json : Codec V) (resp : _) (s : S) (out : Bytes)
      → lookup uri route ≡ some bind
      → get_codec (codes "json") ≡ some json
      → chain bind.handler (json.unmarshal body bind.binder) w.service ≡ (ok resp, s)
      → marshal gob (get_codec srv_codec) resp ≡ ok out
      → handle gob get_codec chain mqtt srv_codec topic route f
          (buffer (request_message uri codec msg_id body))
          w
        ≡ done (
          none,
          record {
            service = s;
            client =
                (publish mqtt
                  (topic ++ codes "/resp")
                  (response_text ((codes "application/" ++ codec) ∷ []) msg_id out)
                  none
                  none
                  w.client).1;
          },
        )
  unfolding on_bind on_result respond lookup equal_bytes
  handle-answers bind json resp s out found codec_eq called coded =
      handle-read
      ∙ rw (
        found,
        codec_eq,
        called,
        coded,
        buffer-response_message ((codes "application/" ++ codec) ∷ []) msg_id out,
      )
