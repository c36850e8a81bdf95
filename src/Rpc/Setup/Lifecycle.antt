-- ===== src/Rpc/Setup/Lifecycle.antt =====
-- Routes and Start of server/mqtt/server.go, on the server of transport/mqtt/server.go.
use kratos_transport_rpc.Prelude.{◌≡◌, ap, ◌∙◌, true, none, some, List, [], ◌∷◌, ◌++◌, Bytes}
use kratos_transport_rpc.Prelude.Text.{codes}
use kratos_transport_rpc.Transport.{BrokerError, Client, Server, start, on_connect_init}
use kratos_transport_rpc.Transport.Starts.{Steps, start-stuck}
use kratos_transport_rpc.Transport.Connects.{
  Accepts, Has, register-Has, register-keeps_Has, Steps-Has, Has-subscribes,
}
use kratos_transport_rpc.Rpc.Setup.{Service, reg_route, start_from, start_service}

module _ {C H : Type 0} (client : Client C H) where
  start_service-running :
      (s : Service C H)
      → s.err ≡ none
      → start_service client s ≡ (none, record s { server = (start client s.server).1 })
  unfolding start_service start_from
  start_service-running s no_err = ap (λ o. start_from client o s) no_err

  -- Where the transport's server does not start, Start returns no error, but it keeps none either:
  -- each later Start returns no error and changes nothing, whatever has happened to the transport's
  -- server since, stops and connects that succeed included. The server has had no error before.
  pub start_service-silent :
      (s : Service C H) (e : BrokerError) (t : Server C H)
      → s.err ≡ none
      → (start client s.server).0 ≡ some e
      → Steps client (start client s.server).1 t
      → ((start_service client s).0 ≡ none)
        × ((start_service client s).1 ≡ record s { server = (start client s.server).1 })
        × (start_service client (record s { server = t }) ≡ (none, record s { server = t }))
  start_service-silent s e t no_err failed steps =
      let first = start_service-running s no_err in
      (
        ap (λ r. r.0) first,
        ap (λ r. r.1) first,
        start_service-running (record s { server = t }) no_err
            ∙ ap (λ r. (none, record s { server = r.1 }))
                (start-stuck client s.server t e failed steps),
      )

  -- RegRoute of several topics with their handlers, in order
  abbrev pub reg_routes : List (Bytes × H) → Service C H → Service C H
  reg_routes [] s = s
  reg_routes ((topic, h) ∷ routes) s = reg_routes routes (reg_route client topic h s)

  reg_routes-keeps :
      (routes : List (Bytes × H)) (key : Bytes) (s : Service C H)
      → Has client key s.server
      → Has client key (reg_routes routes s).server
  unfolding reg_route
  reg_routes-keeps [] key s has = has
  reg_routes-keeps ((topic, h) ∷ routes) key s has =
      reg_routes-keeps routes key (reg_route client topic h s) (
        register-keeps_Has client key (topic ++ codes "/req") (record { handler = h; qos = none })
          s.server has)

  reg_routes-own :
      (before after : List (Bytes × H)) (topic : Bytes) (h : H) (s : Service C H)
      → Has client (topic ++ codes "/req") (reg_routes (before ++ (topic, h) ∷ after) s).server
  unfolding reg_route
  reg_routes-own [] after topic h s =
      reg_routes-keeps after (topic ++ codes "/req") (reg_route client topic h s)
        (register-Has client (topic ++ codes "/req") (record { handler = h; qos = none }) s.server)
  reg_routes-own ((other, g) ∷ before) after topic h s =
      reg_routes-own before after topic h (reg_route client other g s)

module _ {C H : Type 0} (client : Client C H) (Subscribed : C → Bytes → Type 0)
    (ok : Accepts client Subscribed) where
  -- Each topic that a route has been registered for, among any routes before and after it, is
  -- subscribed under its "/req" after the connect callback that InitServer sets, whatever has
  -- happened to the transport's server since: starts, stops, connects, other registrations and
  -- whatever the client has done. The client is connected then, and accepts topics.
  pub reg_routes-subscribed :
      (before after : List (Bytes × H)) (topic : Bytes) (h : H) (s : Service C H) (t : Server C H)
      → Steps client (reg_routes client (before ++ (topic, h) ∷ after) s).server t
      → client.is_connected t.broker ≡ true
      → Subscribed (on_connect_init client t).broker (topic ++ codes "/req")
  reg_routes-subscribed before after topic h s t steps connected =
      let start = (reg_routes client (before ++ (topic, h) ∷ after) s).server in
      let has = reg_routes-own client before after topic h s in
      let key = topic ++ codes "/req" in
      (Has-subscribes client Subscribed ok key t (Steps-Has client key start t steps has)
        connected).1
