-- ===== src/Transport.antt =====
-- transport/mqtt/server.go with the broker of broker/mqtt/mqtt.go that it embeds: connecting,
-- publishing, subscribing, and the server that keeps its subscribers for the next connect. The
-- client of paho.mqtt.golang is the parameter `Client`: a state and what each call returns. The
-- code waits for a token where it calls `Connect` and `Subscribe`, so the call and its result are
-- one step; the client's connect callback is a step of its own.
pub mod Starts
pub mod Connects
pub mod Tokens
pub mod Tests
use kratos_transport_rpc.Prelude.{
  ℕ, Bool, true, false, Option, none, some, List, [], ◌∷◌, Bytes, not, if◌then◌else◌,
}
use kratos_transport_rpc.Prelude.Maps.{TextMap, store}
use kratos_transport_rpc.Io.{is_none}

pub data BrokerError : Type 0 where
  not_connected : BrokerError
  failed : ℕ → BrokerError

-- C are the states of the client and H the handlers.
pub record Client (C H : Type 0) : Type 0 where
  pub is_connected : C → Bool
  pub connect : C → Option BrokerError × C
  pub disconnect : C → C
  pub publish : Bytes → ℕ → Bool → Bytes → C → Option BrokerError × C
  pub subscribe : Bytes → ℕ → H → C → Option BrokerError × C

abbrev pub or_default : {A : Type 0} → A → Option A → A
or_default d none = d
or_default d (some a) = a

module _ {C H : Type 0} (client : Client C H) where
  -- `Connect`
  unfoldable pub connect_broker : C → Option BrokerError × C
  connect_broker c = if client.is_connected c then (none, c) else client.connect c

  -- `Disconnect` returns no error.
  unfoldable pub disconnect_broker : C → C
  disconnect_broker c = if not (client.is_connected c) then c else client.disconnect c

  -- `publish`, with the qos and the retained flag of its options where they are given
  unfoldable pub publish : Bytes → Bytes → Option ℕ → Option Bool → C → Option BrokerError × C
  publish topic buf qos retained c =
      if not (client.is_connected c)
      then (some not_connected, c)
      else client.publish topic (or_default 2 qos) (or_default false retained) buf c

  -- `Subscribe`
  unfoldable pub subscribe : Bytes → H → Option ℕ → C → Option BrokerError × C
  subscribe topic handler qos c =
      if not (client.is_connected c)
      then (some not_connected, c)
      else client.subscribe topic (or_default 2 qos) handler c

-- A stored subscriber: its handler, and the qos of its options.
pub record SubscribeOption (H : Type 0) : Type 0 where
  pub handler : H
  pub qos : Option ℕ

pub record Server (C H : Type 0) : Type 0 where
  pub started : Bool
  pub err : Option BrokerError
  pub subscriber_opts : TextMap (SubscribeOption H)
  pub broker : C

module _ {C H : Type 0} (client : Client C H) where
  unfoldable pub do_register_subscriber : Bytes → SubscribeOption H → C → Option BrokerError × C
  unfolding subscribe
  do_register_subscriber topic opt c = subscribe client topic opt.handler opt.qos c

  -- `doRegisterSubscriberMap`, on the entries in their order; its errors are dropped
  unfoldable pub register_all : TextMap (SubscribeOption H) → C → C
  unfolding do_register_subscriber
  register_all [] c = c
  register_all ((topic, opt) ∷ opts) c = register_all opts (do_register_subscriber topic opt c).1

  -- the connect callback that `NewServer` sets, on the server that `InitServer` did not set up anew
  unfoldable pub on_connect : Server C H → Server C H
  unfolding register_all
  on_connect s = record s { broker = register_all s.subscriber_opts s.broker; started = true }

  -- the connect callback that `InitServer` sets
  unfoldable pub on_connect_init : Server C H → Server C H
  unfolding register_all
  on_connect_init s = record s { broker = register_all s.subscriber_opts s.broker }

  -- `Start`, behind `s.err = s.Connect()`
  unfoldable pub finish_start :
      Server C H → Option BrokerError × C → Option BrokerError × Server C H
  finish_start s (some e, c) = (some e, record s { err = some e; broker = c })
  finish_start s (none, c) = (none, record s { err = none; broker = c; started = true })

  -- `Start` without an earlier error, with `s.started` given
  unfoldable pub start_when : Bool → Server C H → Option BrokerError × Server C H
  unfolding finish_start connect_broker
  start_when true s = (none, s)
  start_when false s = finish_start s (connect_broker client s.broker)

  -- `Start` with `s.err` given
  unfoldable pub start_from : Option BrokerError → Server C H → Option BrokerError × Server C H
  unfolding start_when
  start_from (some e) s = (some e, s)
  start_from none s = start_when s.started s

  unfoldable pub start : Server C H → Option BrokerError × Server C H
  unfolding start_from
  start s = start_from s.err s

  unfoldable pub stop : Server C H → Server C H
  unfolding disconnect_broker
  stop s = record s { started = false; broker = disconnect_broker client s.broker }

  unfoldable pub register_subscriber :
      Bytes → SubscribeOption H → Server C H → Option BrokerError × Server C H
  unfolding do_register_subscriber store
  register_subscriber topic opt s =
      let s1 = record s { subscriber_opts = store topic opt s.subscriber_opts } in
      let (e, c) = do_register_subscriber topic opt s.broker in
      if s.started then (e, record s1 { broker = c }) else (none, s1)
