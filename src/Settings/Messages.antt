-- ===== src/Settings/Messages.antt =====
-- The options of Publish and Subscribe: broker/options.go, broker/mqtt/options.go, the parts of
-- Publish, PublishRaw, publish and Subscribe of broker/mqtt/mqtt.go that read them, and the
-- options that RegisterSubscriber of transport/mqtt/server.go passes on.
pub mod Effects
use kratos_transport_rpc.Prelude.{
  ℕ, Bool, true, false, not, Option, none, some, List, [], ◌∷◌, ◌++◌, Bytes, if◌then◌else◌,
}
use kratos_transport_rpc.Io.{Outcome, done, panics, nil_pointer, ◌>>=◌}
use kratos_transport_rpc.Settings.{
  Key, Value, Context, byte, value, with_value, or_background, as_flag, as_byte, qos_subscribe,
  qos_publish, retained_publish,
}
use kratos_transport_rpc.Rpc.{Result, ok, err, Any, Codec, marshal}
use kratos_transport_rpc.Transport.{BrokerError, not_connected, failed, Client, publish, subscribe}

pub data PublishOption : Type 0 where
  publish_context_with_value : Key → Value → PublishOption
  with_publish_context : Option Context → PublishOption

-- `PublishOptions`, whose one field is the context
abbrev pub PublishOptions : Type 0
PublishOptions = Option Context

unfoldable pub apply_publish : PublishOption → PublishOptions → PublishOptions
unfolding with_value
apply_publish (publish_context_with_value k v) o = some (with_value k v (or_background o))
apply_publish (with_publish_context ctx) o = ctx

unfoldable pub apply_publish_all : List PublishOption → PublishOptions → PublishOptions
unfolding apply_publish
apply_publish_all [] o = o
apply_publish_all (opt ∷ opts) o = apply_publish_all opts (apply_publish opt o)

unfoldable pub new_publish_options : List PublishOption → PublishOptions
unfolding apply_publish_all
new_publish_options opts = apply_publish_all opts (some [])

unfoldable pub with_publish_qos : ℕ → PublishOption
with_publish_qos qos = publish_context_with_value qos_publish (byte qos)

-- Its argument is a byte too.
unfoldable pub with_publish_retained : ℕ → PublishOption
with_publish_retained qos = publish_context_with_value retained_publish (byte qos)

pub data SubscribeOption : Type 0 where
  subscribe_context_with_value : Key → Value → SubscribeOption
  disable_auto_ack : SubscribeOption
  with_queue_name : Bytes → SubscribeOption
  with_subscribe_context : Option Context → SubscribeOption
  with_subscrib_act : ℕ → SubscribeOption

pub record SubscribeOptions : Type 0 where
  pub auto_ack : Bool
  pub act : ℕ
  pub queue : Bytes
  pub context : Option Context

unfoldable pub apply_subscribe : SubscribeOption → SubscribeOptions → SubscribeOptions
unfolding with_value
apply_subscribe (subscribe_context_with_value k v) o = record o {
  context = some (with_value k v (or_background o.context));
}
apply_subscribe disable_auto_ack o = record o { auto_ack = false }
apply_subscribe (with_queue_name name) o = record o { queue = name }
apply_subscribe (with_subscribe_context ctx) o = record o { context = ctx }
apply_subscribe (with_subscrib_act act) o = record o { act = act }

unfoldable pub apply_subscribe_all : List SubscribeOption → SubscribeOptions → SubscribeOptions
unfolding apply_subscribe
apply_subscribe_all [] o = o
apply_subscribe_all (opt ∷ opts) o = apply_subscribe_all opts (apply_subscribe opt o)

unfoldable pub new_subscribe_options : List SubscribeOption → SubscribeOptions
unfolding apply_subscribe_all
new_subscribe_options opts =
    apply_subscribe_all opts (record { auto_ack = true; act = 0; queue = []; context = some [] })

unfoldable pub with_subscribe_qos : ℕ → SubscribeOption
with_subscribe_qos qos = subscribe_context_with_value qos_subscribe (byte qos)

-- the options that `RegisterSubscriber` stores and passes on
unfoldable pub registered : Context → List SubscribeOption → List SubscribeOption
registered ctx opts = opts ++ (with_subscribe_context (some ctx) ∷ [])

module _ {C H : Type 0} (client : Client C H) where
  -- `publish` of a connected client, with the context of its options
  unfoldable pub publish_in : Bytes → Bytes → Option Context → C → Outcome (Option BrokerError × C)
  unfolding publish value
  publish_in topic buf none c = panics nil_pointer
  publish_in topic buf (some ctx) c = done (
      publish client topic buf (as_byte (value qos_publish ctx))
        (as_flag (value retained_publish ctx)) c)

  -- `PublishRaw`, which is `publish`
  unfoldable pub publish_raw :
      Bytes → Bytes → List PublishOption → C → Outcome (Option BrokerError × C)
  unfolding publish_in new_publish_options
  publish_raw topic buf opts c =
      if not (client.is_connected c)
      then done (some not_connected, c)
      else publish_in topic buf (new_publish_options opts) c

  unfoldable pub publish_marshalled :
      Bytes → Result Bytes → List PublishOption → C → Outcome (Option BrokerError × C)
  unfolding publish_raw
  publish_marshalled topic (err e) opts c = done (some (failed e), c)
  publish_marshalled topic (ok buf) opts c = publish_raw topic buf opts c

  -- `Publish`, with the codec of the broker's options
  unfoldable pub publish_message :
      {V : Type 0}
      → (V → Result Bytes)
      → Option (Codec V)
      → Bytes
      → Any V
      → List PublishOption
      → C
      → Outcome (Option BrokerError × C)
  unfolding publish_marshalled marshal
  publish_message gob codec topic msg opts c =
      publish_marshalled topic (marshal gob codec msg) opts c

  unfoldable pub subscribe_in : Bytes → H → Option Context → C → Outcome (Option BrokerError × C)
  unfolding subscribe value
  subscribe_in topic handler none c = panics nil_pointer
  subscribe_in topic handler (some ctx) c =
      done (subscribe client topic handler (as_byte (value qos_subscribe ctx)) c)

  -- `Subscribe`, without the subscriber that it returns
  unfoldable pub subscribe_with :
      Bytes → H → List SubscribeOption → C → Outcome (Option BrokerError × C)
  unfolding subscribe_in new_subscribe_options
  subscribe_with topic handler opts c =
      if not (client.is_connected c)
      then done (some not_connected, c)
      else subscribe_in topic handler (new_subscribe_options opts).context c
