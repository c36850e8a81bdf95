-- ===== src/Rpc/Setup/Made.antt =====
-- What NewServer of server/mqtt/server.go makes of its options.
use kratos_transport_rpc.Prelude.{
  ◌≡◌, refl, Option, none, some, List, [], ◌∷◌, ◌++◌, map, true, Bytes, ◌∙◌, ap, sym, false,
  append-nil,
}
use kratos_transport_rpc.Io.{is_none, done}
use kratos_transport_rpc.Settings.Client.{
  Broker, Call, set_clean_session, set_auto_reconnect, set_resume_subs, set_max_reconnect_interval,
  set_client_id, set_on_connect, set_on_connection_lost, add_broker, own, given, new_broker,
  broker_of, new_client, client_calls, first_calls, context_calls, with_context_id,
}
use kratos_transport_rpc.Prelude.Int.{pos}
use kratos_transport_rpc.Prelude.Text.{codes}
use kratos_transport_rpc.Settings.{
  Options, new_options, value, apply, apply_one, new_options_and_apply,
}
use kratos_transport_rpc.Settings.Server
use kratos_transport_rpc.Conn.{to_int64}
use kratos_transport_rpc.Transport.{
  BrokerError, Client, Server, connect_broker, finish_start, start_when, start_from, start,
}
use kratos_transport_rpc.Rpc.Setup.{
  ServerOption, middleware, logger, with_address, with_tls_config, with_auth, with_client_id,
  with_codec, with_logger, Config, zero_options, initial_read_limit_size, max_header_bytes,
  apply_option, init, initial, start_transport, init_transport, new_server,
}

-- The last addresses and the last codec among options, for those that an option before had set.
abbrev pub addresses : {X : Type 0} → List Bytes → List (ServerOption X) → List Bytes
addresses addrs [] = addrs
addresses addrs (with_address l ∷ opts) = addresses l opts
addresses addrs (o ∷ opts) = addresses addrs opts

abbrev pub codec_name : {X : Type 0} → Bytes → List (ServerOption X) → Bytes
codec_name c [] = c
codec_name c (with_codec d ∷ opts) = codec_name d opts
codec_name c (o ∷ opts) = codec_name c opts

-- The calls on the options of the client library that a server's client is made of.
abbrev pub calls_for : {X : Type 0} → Bytes → X → List Bytes → List (Call X)
calls_for generated callback addrs =
    set_clean_session true
    ∷ set_auto_reconnect true
    ∷ set_resume_subs true
    ∷ set_max_reconnect_interval 30
    ∷ set_client_id generated
    ∷ set_on_connect own
    ∷ set_on_connect (given callback)
    ∷ set_on_connection_lost own
    ∷ map add_broker addrs

module _ {X C H : Type 0} (get_codec : Bytes → Option X) (new_helper : X → X) (client : Client C H)
    (connector : List (Call X) → C) where
  -- what the options of a transport's server come to
  abbrev transport_options : X → List Bytes → Options X
  transport_options callback addrs = record new_options {
    addrs = addrs;
    codec = get_codec (codes "json");
    on_connect = some callback;
  }

  -- its broker
  abbrev transport_broker : X → Bytes → List Bytes → Broker X
  transport_broker callback generated addrs = record {
    addrs = addrs;
    opts = transport_options callback addrs;
    client = first_calls generated addrs (transport_options callback addrs) ++ context_calls [];
  }

  -- the broker of NewServer without options, which InitServer replaces
  abbrev first_broker : X → Bytes → Broker X
  first_broker callback generated =
      let o = record new_options { on_connect = some callback } in
      record { addrs = []; opts = o; client = first_calls generated [] o ++ context_calls [] }

  first_broker_eq :
      (callback : X) (generated : Bytes)
      → Server.new_server get_codec new_helper generated callback []
        ≡ done (first_broker callback generated)
  unfolding Server.new_server Server.server_opts Server.init_server new_broker broker_of new_client
      client_calls new_options_and_apply apply apply_one new_options value with_context_id
  first_broker_eq callback generated = refl

  first_calls_eq :
      (callback : X) (generated : Bytes) (addrs : List Bytes)
      → first_calls generated addrs (transport_options callback addrs) ++ context_calls []
        ≡ calls_for generated callback addrs
  unfolding first_calls context_calls value new_options
  first_calls_eq callback generated addrs = simp append-nil refl

  init_transport_eq :
      (callback : X) (generated : Bytes) (s : Config X C H)
      → init_transport get_codec new_helper client connector callback generated s
        ≡ done (
            start_transport get_codec new_helper client connector s
              (transport_broker callback generated s.opts.addrs))
  unfolding init_transport Server.new_server Server.server_opts Server.init_server new_broker
      broker_of new_client client_calls new_options_and_apply apply apply_one new_options value
      with_context_id Server.broker_opts
  init_transport_eq callback generated s = refl

  init_lem :
      (opts : List (ServerOption X)) (s : Config X C H)
      → ((init get_codec new_helper opts s).opts.addrs ≡ addresses s.opts.addrs opts)
        × ((init get_codec new_helper opts s).codec ≡ codec_name s.codec opts)
        × ((init get_codec new_helper opts s).err ≡ s.err)
        × ((init get_codec new_helper opts s).max_header_bytes ≡ s.max_header_bytes)
        × ((init get_codec new_helper opts s).transport ≡ s.transport)
  unfolding init apply_option
  init_lem [] s = (refl, refl, refl, refl, refl)
  init_lem (middleware m ∷ opts) s = init_lem opts s
  init_lem (logger l ∷ opts) s = init_lem opts s
  init_lem (with_address l ∷ opts) s =
      init_lem opts (record s { opts = record s.opts { addrs = l } })
  init_lem (with_tls_config c ∷ opts) s =
      init_lem opts (record s { opts = record s.opts { tls_config = c } })
  init_lem (with_auth u p ∷ opts) s = init_lem opts s
  init_lem (with_client_id id ∷ opts) s =
      init_lem opts (record s { opts = record s.opts { client_id = id } })
  init_lem (with_codec c ∷ opts) s =
      init_lem opts (record s { codec = c; opts = record s.opts { codec = get_codec c } })
  init_lem (with_logger l ∷ opts) s =
      init_lem opts (record s { opts = record s.opts { log = some (new_helper l) } })

  -- the transport's server of NewServer
  abbrev idle : C → Server C H
  idle c = record { started = false; err = none; subscriber_opts = []; broker = c }

  finish_start-from :
      (c : C) (r : Option BrokerError × C)
      → ((finish_start client (idle c) r).1.err ≡ r.0)
        × ((finish_start client (idle c) r).1.broker ≡ r.1)
        × ((finish_start client (idle c) r).1.started ≡ is_none r.0)
        × ((finish_start client (idle c) r).1.subscriber_opts ≡ [])
  unfolding finish_start
  finish_start-from c (none, c1) = (refl, refl, refl, refl)
  finish_start-from c (some e, c1) = (refl, refl, refl, refl)

  -- Whatever options a server is made with, it is made, and the only one that reaches its client is
  -- the last WithAddress: the client is made of these addresses, the callback and the id of
  -- InitServer, and the defaults, without user name, password or TLS configuration. The client then
  -- connects once; the transport's server keeps the error if there is one and has started otherwise,
  -- without subscribers. The server itself has no error either way, its own codec is that of the last
  -- WithCodec and empty without one, and it reads up to the default limit, 1 MB and 4096 bytes.
  pub new_server_lem :
      (callback callback_init : X) (generated generated_init : Bytes) (opts : List (ServerOption X))
      → (s : Config X C H) × (new_server get_codec new_helper client connector
            (callback, callback_init)
            (generated, generated_init)
            opts
          ≡ done s)
        × (s.broker.client ≡ calls_for generated_init callback_init (addresses [] opts))
        × (s.transport.err ≡ (connect_broker client (connector s.broker.client)).0)
        × (s.transport.broker ≡ (connect_broker client (connector s.broker.client)).1)
        × (s.transport.started ≡ is_none s.transport.err)
        × (s.transport.subscriber_opts ≡ [])
        × (s.codec ≡ codec_name [] opts)
        × (s.err ≡ none)
        × (initial_read_limit_size s.max_header_bytes ≡ pos 1052672)
  unfolding new_server initial zero_options initial_read_limit_size max_header_bytes to_int64
      start_transport start start_from start_when
  new_server_lem callback callback_init generated generated_init opts =
      let first = first_broker callback generated in
      let s0 : Config X C H = initial first (idle (connector first.client)) in
      let s1 = init get_codec new_helper opts s0 in
      let (addrs_eq, codec_eq, err_eq, max_eq, transport_eq) = init_lem opts s0 in
      let b = transport_broker callback_init generated_init s1.opts.addrs in
      let c = connector b.client in
      let started = ap (λ t. (start client (record t { broker = c })).1) transport_eq in
      let (e_eq, c_eq, flag_eq, subs_eq) = finish_start-from c (connect_broker client c) in
      (
        start_transport get_codec new_helper client connector s1 b,
        simp (first_broker_eq callback generated) refl
            ∙ init_transport_eq callback_init generated_init s1,
        first_calls_eq callback_init generated_init s1.opts.addrs
            ∙ ap (calls_for generated_init callback_init) addrs_eq,
        ap (λ t. t.err) started ∙ e_eq,
        ap (λ t. t.broker) started ∙ c_eq,
        ap (λ t. t.started) started
            ∙ flag_eq
            ∙ ap is_none (sym e_eq ∙ ap (λ t. t.err) (sym started)),
        ap (λ t. t.subscriber_opts) started ∙ subs_eq,
        codec_eq,
        err_eq,
        ap initial_read_limit_size max_eq ∙ limit,
      )
    where
      limit : initial_read_limit_size (pos 0) ≡ pos 1052672
      limit = refl
