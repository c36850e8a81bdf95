-- ===== src/Settings/Server.antt =====
-- transport/mqtt/options.go, and NewServer, InitServer and Endpoint of transport/mqtt/server.go
-- with Address of broker/mqtt/mqtt.go.
pub mod Callbacks
use kratos_transport_rpc.Prelude.{
  Bool, true, false, Option, none, some, List, [], ◌∷◌, ◌++◌, Bytes, if◌then◌else◌,
}
use kratos_transport_rpc.Prelude.Text.{codes, join, has_prefix}
use kratos_transport_rpc.Io.{Outcome}
use kratos_transport_rpc.Settings.{
  BrokerOption, with_address, with_codec, with_enable_secure, with_tls_config, with_on_connect,
  with_logger, mqtt_clean_session, mqtt_auth, mqtt_client_id, mqtt_auto_reconnect, mqtt_resume_subs,
}
use kratos_transport_rpc.Settings.Client.{Broker, new_broker}

pub data ServerOption (X : Type 0) : Type 0 where
  middleware : ServerOption X
  logger : X → ServerOption X
  with_broker_options : List (BrokerOption X) → ServerOption X
  server_address : List Bytes → ServerOption X
  server_tls_config : Option X → ServerOption X
  server_clean_session : Bool → ServerOption X
  server_auth : Bytes → Bytes → ServerOption X
  server_client_id : Bytes → ServerOption X
  server_auto_reconnect : Bool → ServerOption X
  server_resume_subs : Bool → ServerOption X
  server_codec : Bytes → ServerOption X
  server_logger : X → ServerOption X

-- the secure flag that goes with a configuration
abbrev secure_for : {X : Type 0} → Option X → List (BrokerOption X)
secure_for none = []
secure_for (some config) = with_enable_secure true ∷ []

module _ {X : Type 0} where
  -- what an option appends to `brokerOpts`; `Middleware` and `Logger` do nothing
  unfoldable pub broker_opts : ServerOption X → List (BrokerOption X)
  unfolding mqtt_clean_session mqtt_auth mqtt_client_id mqtt_auto_reconnect mqtt_resume_subs
  broker_opts middleware = []
  broker_opts (logger l) = []
  broker_opts (with_broker_options opts) = opts
  broker_opts (server_address addrs) = with_address addrs ∷ []
  broker_opts (server_tls_config c) = secure_for c ++ (with_tls_config c ∷ [])
  broker_opts (server_clean_session enable) = mqtt_clean_session enable ∷ []
  broker_opts (server_auth username password) = mqtt_auth username password ∷ []
  broker_opts (server_client_id id) = mqtt_client_id id ∷ []
  broker_opts (server_auto_reconnect enable) = mqtt_auto_reconnect enable ∷ []
  broker_opts (server_resume_subs enable) = mqtt_resume_subs enable ∷ []
  broker_opts (server_codec c) = with_codec c ∷ []
  broker_opts (server_logger l) = with_logger l ∷ []

  -- `init`
  unfoldable pub init_server : List (ServerOption X) → List (BrokerOption X) → List (BrokerOption X)
  unfolding broker_opts
  init_server [] broker = broker
  init_server (o ∷ opts) broker = init_server opts (broker ++ broker_opts o)

  -- `brokerOpts` of a server with its connect callback
  unfoldable pub server_opts : X → List (ServerOption X) → List (BrokerOption X)
  unfolding init_server
  server_opts callback opts = init_server opts [] ++ (with_on_connect (some callback) ∷ [])

  module _ (get_codec : Bytes → Option X) (new_helper : X → X) (generated : Bytes) where
    -- The broker of `NewServer`, and of `InitServer`, which begins with no options again; they
    -- differ in their callbacks.
    unfoldable pub new_server : X → List (ServerOption X) → Outcome (Broker X)
    unfolding server_opts new_broker
    new_server callback opts = new_broker get_codec new_helper generated (server_opts callback opts)

-- `Address`
unfoldable pub address : {X : Type 0} → Broker X → Bytes
unfolding join
address b = join (codes ",") b.addrs

-- the text that `Endpoint` hands to `url.Parse`
unfoldable pub endpoint_text : Bytes → Bytes
unfolding has_prefix
endpoint_text addr = if has_prefix addr (codes "tcp://") then addr else codes "tcp://" ++ addr

-- `Endpoint`, with `s.err` given; `parse` is `url.Parse`
unfoldable pub endpoint :
    {E U : Type 0} → (Bytes → Option E × U) → U → Option E → Bytes → Option E × U
unfolding endpoint_text
endpoint parse no_url (some e) addr = (some e, no_url)
endpoint parse no_url none addr = parse (endpoint_text addr)
