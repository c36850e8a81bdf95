-- ===== src/Settings/Server/Callbacks.antt =====
-- NewServer, InitServer and Endpoint of transport/mqtt/server.go: the callback of a server, and
-- its URL.
use kratos_transport_rpc.Prelude.{
  ◌≡◌, refl, ap, ◌∙◌, Option, none, some, List, [], ◌∷◌, ◌++◌, Bytes, Bool-cases, inl, inr, ◌⊎◌,
}
use kratos_transport_rpc.Prelude.Text.{codes, has_prefix, has_prefix-true}
use kratos_transport_rpc.Io.{done}
use kratos_transport_rpc.Settings.{BrokerOption, with_on_connect}
use kratos_transport_rpc.Settings.Choices.{or_default, last_on_connect}
use kratos_transport_rpc.Settings.Client.{Broker, given}
use kratos_transport_rpc.Settings.Client.Last.{effective, on_connect_of}
use kratos_transport_rpc.Settings.Client.Chosen.{callback_of, new_broker_lem}
use kratos_transport_rpc.Settings.Server.{
  ServerOption, init_server, server_opts, new_server, endpoint_text,
}

last_on_connect-append :
    {X : Type 0} (opts : List (BrokerOption X)) (f : Option X)
    → last_on_connect (opts ++ (with_on_connect f ∷ [])) ≡ some f
unfolding last_on_connect
last_on_connect-append [] f = refl
last_on_connect-append (opt ∷ opts) f = rw (last_on_connect-append opts f)

-- Whatever options a server is made with, one for a callback of the client's own among
-- WithBrokerOptions included, the client's callback on a connect is the server's, which
-- subscribes its topics; and a server is made.
pub new_server-on_connect :
    {X : Type 0} (get_codec : Bytes → Option X) (new_helper : X → X) (generated : Bytes)
    (callback : X) (opts : List (ServerOption X))
    → (b : Broker X) × (new_server get_codec new_helper generated callback opts ≡ done b)
      × (effective on_connect_of b.client ≡ some (given callback))
unfolding new_server server_opts
new_server-on_connect get_codec new_helper generated callback opts =
    let all = server_opts callback opts in
    let (b, made, _, _, _, _, _, _, connect_eq) =
      new_broker_lem get_codec new_helper generated all in
    (
      b,
      made,
      connect_eq
          ∙ ap (λ f. some (callback_of (or_default none f)))
              (last_on_connect-append (init_server opts []) (some callback)),
    )

-- What Endpoint parses begins with "tcp://" and is the address behind it, which is the broker's own
-- address where that has this prefix.
pub endpoint_text_lem :
    (addr : Bytes)
    → (rest : Bytes) × (endpoint_text addr ≡ codes "tcp://" ++ rest)
      × ((rest ≡ addr) ⊎ (addr ≡ codes "tcp://" ++ rest))
unfolding endpoint_text
endpoint_text_lem addr = elim (Bool-cases (has_prefix addr (codes "tcp://"))) [
  | inl h ↦ let (rest, e) = has_prefix-true addr (codes "tcp://") h in (rest, rw h e, inr e)
  | inr h ↦ (addr, rw h, inl refl)
]
