-- ===== src/Rpc/Setup.antt =====
-- server/mqtt/options.go, and the life of a server of server/mqtt/server.go: NewServer, the limits
-- on headers, RegRoute's subscription, Start and Stop. It stands on the server of
-- transport/mqtt/server.go (Transport, and Settings.Server for how it is made).
pub mod Made
pub mod Lifecycle
mod Tests
use kratos_transport_rpc.Prelude.{
  ℕ, zero, suc, ◌+◌, ◌*◌, ◌%◌, ◌^◌, false, Option, none, some, List, [], ◌∷◌, ◌++◌, Bytes,
}
use kratos_transport_rpc.Prelude.Int.{ℤ, pos, negsuc}
use kratos_transport_rpc.Prelude.Text.{codes}
use kratos_transport_rpc.Io.{Outcome, done, ◌>>=◌}
use kratos_transport_rpc.Conn.{to_int64}
use kratos_transport_rpc.Transport.{BrokerError, Client, Server, start, stop, register_subscriber}
use kratos_transport_rpc.Settings.{Options}
use kratos_transport_rpc.Settings.Client.{Broker, Call}
use kratos_transport_rpc.Settings.Server.{server_address, server_codec}
use kratos_transport_rpc.Settings.Server

-- `Middleware`, `Logger` and `WithAuth` return functions that do nothing.
pub data ServerOption (X : Type 0) : Type 0 where
  middleware : List X → ServerOption X
  logger : X → ServerOption X
  with_address : List Bytes → ServerOption X
  with_tls_config : Option X → ServerOption X
  with_auth : Bytes → Bytes → ServerOption X
  with_client_id : Bytes → ServerOption X
  with_codec : Bytes → ServerOption X
  with_logger : X → ServerOption X

-- `Server` without its contexts, its log, and the middleware and the callback that nothing sets.
-- `transport` is the field `server`, and `broker` is how its broker has been made. Durations are in
-- nanoseconds.
pub record Config (X C H : Type 0) : Type 0 where
  pub err : Option BrokerError
  pub opts : Options X
  pub codec : Bytes
  pub read_timeout : ℕ
  pub write_timeout : ℕ
  pub idle_timeout : ℕ
  pub broker : Broker X
  pub transport : Server C H
  pub max_header_bytes : ℤ
  pub topic_pre : Bytes

abbrev pub second : ℕ
second = 1000000000

-- `broker.Options{}`
unfoldable pub zero_options : {X : Type 0} → Options X
zero_options = record {
  addrs = [];
  client_id = [];
  codec = none;
  error_handler = none;
  secure = false;
  tls_config = none;
  context = none;
  tracings = [];
  on_connect = none;
  disconnect = none;
  log = none;
}

-- the server before its options, with the broker of `mqtt.NewServer()`
unfoldable pub initial : {X C H : Type 0} → Broker X → Server C H → Config X C H
unfolding zero_options
initial b t = record {
  err = none;
  opts = zero_options;
  codec = [];
  read_timeout = 2 * second;
  write_timeout = 2 * second;
  idle_timeout = 2 * second;
  broker = b;
  transport = t;
  max_header_bytes = pos 0;
  topic_pre = [];
}

-- `get_codec` is `encoding.GetCodec` and `new_helper` is `log.NewHelper`.
module _ {X C H : Type 0} (get_codec : Bytes → Option X) (new_helper : X → X) where
  unfoldable pub apply_option : ServerOption X → Config X C H → Config X C H
  apply_option (middleware m) s = s
  apply_option (logger l) s = s
  apply_option (with_address l) s = record s { opts = record s.opts { addrs = l } }
  apply_option (with_tls_config c) s = record s { opts = record s.opts { tls_config = c } }
  apply_option (with_auth username password) s = s
  apply_option (with_client_id id) s = record s { opts = record s.opts { client_id = id } }
  apply_option (with_codec c) s = record s {
    codec = c;
    opts = record s.opts { codec = get_codec c };
  }
  apply_option (with_logger l) s = record s { opts = record s.opts { log = some (new_helper l) } }

  -- `init`
  unfoldable pub init : List (ServerOption X) → Config X C H → Config X C H
  unfolding apply_option
  init [] s = s
  init (o ∷ opts) s = init opts (apply_option o s)

  -- `client` is the client library, and `connector` its `NewClient` on the calls that have been made
  -- on the options.
  module _ (client : Client C H) (connector : List (Call X) → C) where
    -- the rest of the transport's `InitServer`, with its new broker: it starts
    unfoldable pub start_transport : Config X C H → Broker X → Config X C H
    unfolding start
    start_transport s b =
        let t = (start client (record s.transport { broker = connector b.client })).1 in
        record s { broker = b; transport = t }

    -- `InitServer` of the transport's server: it gets the addresses, and json for its codec.
    unfoldable pub init_transport : X → Bytes → Config X C H → Outcome (Config X C H)
    unfolding start_transport
    init_transport callback generated s =
        Server.new_server get_codec new_helper generated callback
          (server_address s.opts.addrs ∷ server_codec (codes "json") ∷ [])
        >>= λ b. done (start_transport s b)

    -- `NewServer`. The transport's NewServer and InitServer each have a callback and an id of their
    -- own.
    unfoldable pub new_server :
        X × X → Bytes × Bytes → List (ServerOption X) → Outcome (Config X C H)
    unfolding init initial init_transport
    new_server (callback, callback_init) (generated, generated_init) opts =
        Server.new_server get_codec new_helper generated callback [] >>= λ b.
        init_transport callback_init generated_init (
          init opts (
            initial b (record {
              started = false;
              err = none;
              subscriber_opts = [];
              broker = connector b.client;
            })))

abbrev pub default_max_header_bytes : ℕ
default_max_header_bytes = 1048576

-- `maxHeaderBytes`
unfoldable pub max_header_bytes : ℤ → ℕ
max_header_bytes (pos zero) = default_max_header_bytes
max_header_bytes (pos (suc n)) = suc n
max_header_bytes (negsuc n) = default_max_header_bytes

-- `initialReadLimitSize`
unfoldable pub initial_read_limit_size : ℤ → ℤ
unfolding max_header_bytes to_int64
initial_read_limit_size max = to_int64 ((max_header_bytes max + 4096) % 2 ^ 64)

-- The server at work: its error, and the transport's server.
pub record Service (C H : Type 0) : Type 0 where
  pub err : Option BrokerError
  pub server : Server C H

module _ {C H : Type 0} (client : Client C H) where
  -- the subscription of `RegRoute`, whose error is dropped; `handler` is its handler (Rpc.handle)
  unfoldable pub reg_route : Bytes → H → Service C H → Service C H
  unfolding register_subscriber
  reg_route topic handler s = record s {
    server =
        (register_subscriber client (topic ++ codes "/req")
          (record { handler = handler; qos = none }) s.server).1;
  }

  -- `Start`, with `s.err` given; the error of the transport's `Start` is dropped
  unfoldable pub start_from : Option BrokerError → Service C H → Option BrokerError × Service C H
  unfolding start
  start_from (some e) s = (some e, s)
  start_from none s = (none, record s { server = (start client s.server).1 })

  unfoldable pub start_service : Service C H → Option BrokerError × Service C H
  unfolding start_from
  start_service s = start_from s.err s

  -- `Stop`; that of the transport returns no error
  unfoldable pub stop_service : Service C H → Service C H
  unfolding stop
  stop_service s = record s { server = stop client s.server }
