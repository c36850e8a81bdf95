-- ===== src/Rpc/Setup/Tests.antt =====
-- server/mqtt/options.go and the life of a server of server/mqtt/server.go, with numbers for codecs
-- and callbacks and the client of Transport.Tests, whose first connect fails.
use kratos_transport_rpc.Prelude.{
  ℕ, ◌≡◌, refl, Option, none, some, List, [], ◌∷◌, Bytes, true, false,
}
use kratos_transport_rpc.Prelude.Int.{pos}
use kratos_transport_rpc.Prelude.Text.{codes}
use kratos_transport_rpc.Io.{done, is_none}
use kratos_transport_rpc.Transport.{failed, start, on_connect_init, Server, connect_broker}
use kratos_transport_rpc.Transport.Starts.{next, moved, stay}
use kratos_transport_rpc.Settings.Client.{Call}
use kratos_transport_rpc.Transport.Tests.{
  Fake, fake, fake_connect, server, recovered, recovers, IsIn, fake-Accepts,
}
use kratos_transport_rpc.Rpc.Setup.{
  ServerOption, with_address, with_auth, with_client_id, with_codec, Config, new_server,
  initial_read_limit_size, Service, start_service,
}
use kratos_transport_rpc.Rpc.Setup.Made.{calls_for, new_server_lem}
use kratos_transport_rpc.Rpc.Setup.Lifecycle.{
  start_service-silent, reg_routes, reg_routes-subscribed,
}

abbrev codec : Bytes → Option ℕ
codec name = some 4

abbrev helper : ℕ → ℕ
helper l = l

abbrev opts : List (ServerOption ℕ)
opts =
    with_address (codes "a:1" ∷ [])
    ∷ with_client_id (codes "me")
    ∷ with_auth (codes "root") (codes "secret")
    ∷ with_codec (codes "proto")
    ∷ with_address (codes "b:1" ∷ codes "c:1" ∷ [])
    ∷ []

abbrev connector : List (Call ℕ) → Fake
connector calls = record { online = false; refuse = true; topics = [] }

new_server_lem_example :
    (s : Config ℕ Fake ℕ) × (new_server codec helper fake connector
        (7, 8)
        (codes "17", codes "18")
        opts
      ≡ done s)
    × (s.broker.client ≡ calls_for (codes "18") 8 (codes "b:1" ∷ codes "c:1" ∷ []))
    × (s.transport.err ≡ some (failed 5))
    × (s.transport.broker ≡ record { online = false; refuse = false; topics = [] })
    × (s.transport.started ≡ is_none s.transport.err)
    × (s.transport.subscriber_opts ≡ [])
    × (s.codec ≡ codes "proto")
    × (s.err ≡ none)
    × (initial_read_limit_size s.max_header_bytes ≡ pos 1052672)
unfolding connect_broker fake_connect
new_server_lem_example =
    new_server_lem codec helper fake connector 7 8 (codes "17") (codes "18") opts

abbrev service : Service Fake ℕ
service = record { err = none; server = server }

start_service-silent_example :
    ((start_service fake service).0 ≡ none)
    × ((start_service fake service).1 ≡ record service { server = (start fake server).1 })
    × (start_service fake (record service { server = recovered })
        ≡ (none, record service { server = recovered }))
unfolding start fake_connect
start_service-silent_example =
    start_service-silent fake service (failed 5) recovered refl refl recovers

abbrev routes : List (Bytes × ℕ)
routes = (codes "a", 1) ∷ (codes "b", 2) ∷ (codes "c", 3) ∷ []

abbrev routed : Service Fake ℕ
routed = reg_routes fake routes service

abbrev online : Server Fake ℕ
online = record routed.server { broker = record { online = true; refuse = false; topics = [] } }

reg_routes-subscribed_example : IsIn (codes "b/req") (on_connect_init fake online).broker.topics
reg_routes-subscribed_example =
    reg_routes-subscribed fake (λ c t. IsIn t c.topics) fake-Accepts ((codes "a", 1) ∷ [])
      ((codes "c", 3) ∷ []) (codes "b") 2 service online
      (next (moved (record { online = true; refuse = false; topics = [] })) stay) refl
