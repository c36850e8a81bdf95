-- ===== src/Settings/Tests.antt =====
-- broker/options.go, broker/mqtt/options.go and transport/mqtt/options.go: lists of options, with
-- numbers for the values of other packages, and a client that keeps the calls that reach it.
use kratos_transport_rpc.Prelude.{
  ℕ, ◌≡◌, refl, Bool, true, false, Option, none, some, List, [], ◌∷◌, map, Bytes,
}
use kratos_transport_rpc.Prelude.Text.{codes}
use kratos_transport_rpc.Io.{done}
use kratos_transport_rpc.Transport.{Client, publish, subscribe}
use kratos_transport_rpc.Settings.{
  BrokerOption, with_address, with_on_connect, with_option_context, mqtt_clean_session,
  mqtt_client_id, value, new_options_and_apply, client_id, flag,
}
use kratos_transport_rpc.Settings.Choices.{last_address, last_value, last_on_connect}
use kratos_transport_rpc.Settings.Client.{Broker, new_broker, given}
use kratos_transport_rpc.Settings.Client.Last.{
  effective, clean_session_of, auto_reconnect_of, resume_subs_of, order_matters_of, client_id_of,
  on_connect_of, brokers_of,
}
use kratos_transport_rpc.Settings.Client.Chosen.{callback_of, new_broker_lem}
use kratos_transport_rpc.Settings.Messages.{
  publish_raw, with_subscribe_qos, registered, subscribe_with,
}
use kratos_transport_rpc.Settings.Messages.Effects.{
  Choice, option_of, publish_raw-choices, subscribe_with-registered,
}
use kratos_transport_rpc.Settings.Server.{with_broker_options, new_server}
use kratos_transport_rpc.Settings.Server.Callbacks.{new_server-on_connect}

abbrev codec : Bytes → Option ℕ
codec name = none

abbrev helper : ℕ → ℕ
helper l = l

abbrev generated : Bytes
generated = codes "17"

abbrev opts : List (BrokerOption ℕ)
unfolding mqtt_clean_session mqtt_client_id
opts =
    with_address (codes "a:1" ∷ [])
    ∷ mqtt_clean_session true
    ∷ mqtt_client_id (codes "me")
    ∷ mqtt_clean_session false
    ∷ with_option_context (some [])
    ∷ []

-- `WithOptionContext` changes nothing, since the context of the options is never nil.
context_stays :
    (new_options_and_apply codec helper
      (with_option_context (some ((client_id, flag true) ∷ [])) ∷ [])).context
    ≡ some []
unfolding new_options_and_apply
context_stays = refl

new_broker_lem_example :
    (b : Broker ℕ) × (new_broker codec helper generated opts ≡ done b)
    × (brokers_of b.client ≡ codes "a:1" ∷ [])
    × (effective clean_session_of b.client ≡ some false)
    × (effective auto_reconnect_of b.client ≡ some true)
    × (effective resume_subs_of b.client ≡ some true)
    × (effective order_matters_of b.client ≡ none)
    × (effective client_id_of b.client ≡ some (codes "me"))
    × (effective on_connect_of b.client ≡ some (callback_of none))
unfolding last_address last_value last_on_connect opts
new_broker_lem_example = new_broker_lem codec helper generated opts

-- It is connected, and keeps qos and flag of what is published.
abbrev mqtt : Client (List (ℕ × Bool)) ℕ
mqtt = record {
  is_connected = λ c. true;
  connect = λ c. (none, c);
  disconnect = λ c. c;
  publish = λ topic qos retained buf c. (none, (qos, retained) ∷ c);
  subscribe = λ topic qos h c. (none, (qos, false) ∷ c);
}

publish_raw-choices_example :
    publish_raw mqtt
      (codes "t")
      (codes "x")
      (map option_of (Choice.retained 1 ∷ Choice.qos 0 ∷ Choice.context [] ∷ Choice.qos 1 ∷ []))
      []
    ≡ done (none, (1, false) ∷ [])
unfolding publish value
publish_raw-choices_example =
    publish_raw-choices mqtt (codes "t") (codes "x")
      (Choice.retained 1 ∷ Choice.qos 0 ∷ Choice.context [] ∷ Choice.qos 1 ∷ []) [] (refl, tt)

subscribe_with-registered_example :
    subscribe_with mqtt (codes "t") 5 (registered [] (with_subscribe_qos 0 ∷ [])) []
    ≡ done (none, (2, false) ∷ [])
unfolding subscribe value
subscribe_with-registered_example =
    subscribe_with-registered mqtt (codes "t") 5 [] (with_subscribe_qos 0 ∷ []) []

new_server-on_connect_example :
    (b : Broker ℕ) × (new_server codec helper generated 8
        (with_broker_options (with_on_connect (some 7) ∷ []) ∷ [])
      ≡ done b)
    × (effective on_connect_of b.client ≡ some (given 8))
new_server-on_connect_example =
    new_server-on_connect codec helper generated 8
      (with_broker_options (with_on_connect (some 7) ∷ []) ∷ [])
