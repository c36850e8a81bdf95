-- ===== src/Settings/Client.antt =====
-- newClient, newBroker, Init and Address of broker/mqtt/mqtt.go. The client options of
-- paho.mqtt.golang are the calls that are made on them, in order; what a client does with them is
-- that package's.
pub mod Last
pub mod Chosen
use kratos_transport_rpc.Prelude.{
  ℕ, Bool, true, false, Option, none, some, List, [], ◌∷◌, ◌++◌, map, Bytes, length, ltb, ◌==◌,
  if◌then◌else◌,
}
use kratos_transport_rpc.Prelude.Text.{codes}
use kratos_transport_rpc.Io.{Outcome, done, panics, nil_pointer, ◌>>=◌}
use kratos_transport_rpc.Broker.{set_addrs}
use kratos_transport_rpc.Settings.{
  Context, AuthRecord, Options, BrokerOption, value, as_flag, as_text, as_auth, clean_session, auth,
  client_id, auto_reconnect, resume_subs, order_matters, apply, new_options_and_apply,
}

-- a method of the broker, or a function of the options
pub data Callback (X : Type 0) : Type 0 where
  own : Callback X
  given : X → Callback X

pub data Call (X : Type 0) : Type 0 where
  set_clean_session : Bool → Call X
  set_auto_reconnect : Bool → Call X
  set_resume_subs : Bool → Call X
  set_order_matters : Bool → Call X
  -- in nanoseconds
  set_max_reconnect_interval : ℕ → Call X
  set_client_id : Bytes → Call X
  set_on_connect : Callback X → Call X
  set_on_connection_lost : Callback X → Call X
  add_broker : Bytes → Call X
  set_tls_config : X → Call X
  set_username : Bytes → Call X
  set_password : Bytes → Call X

-- the calls under `if v, ok := ...; ok`
abbrev pub if_some : {A B : Type 0} → (A → List B) → Option A → List B
if_some f none = []
if_some f (some a) = f a

abbrev pub id_call : {X : Type 0} → Bytes → List (Call X)
id_call id = if length id == 0 then [] else set_client_id id ∷ []

abbrev pub auth_calls : {X : Type 0} → AuthRecord → List (Call X)
auth_calls a = set_username a.username ∷ set_password a.password ∷ []

module _ {X : Type 0} where
  -- the calls of `newClient` that depend on the context
  unfoldable pub context_calls : Context → List (Call X)
  unfolding value
  context_calls c =
      if_some auth_calls (as_auth (value auth c))
      ++ (if_some id_call (as_text (value client_id c))
          ++ (if_some (λ b. set_clean_session b ∷ []) (as_flag (value clean_session c))
              ++ (if_some (λ b. set_auto_reconnect b ∷ []) (as_flag (value auto_reconnect c))
                  ++ (if_some (λ b. set_resume_subs b ∷ []) (as_flag (value resume_subs c))
                      ++ if_some (λ b. set_order_matters b ∷ [])
                          (as_flag (value order_matters c))))))

module _ {X : Type 0} (generated : Bytes) where
  -- those before it reads the context
  unfoldable pub first_calls : List Bytes → Options X → List (Call X)
  first_calls addrs opts =
      set_clean_session true
      ∷ set_auto_reconnect true
      ∷ set_resume_subs true
      ∷ set_max_reconnect_interval 30
      ∷ set_client_id generated
      ∷ set_on_connect own
      ∷ (if_some (λ f. set_on_connect (given f) ∷ []) opts.on_connect
          ++ (set_on_connection_lost own
              ∷ (if_some (λ f. set_on_connection_lost (given f) ∷ []) opts.disconnect
                  ++ (map add_broker addrs
                      ++ if_some (λ c. set_tls_config c ∷ []) opts.tls_config))))

  -- `newClient` with `opts.Context` given
  unfoldable pub client_calls : List Bytes → Options X → Option Context → Outcome (List (Call X))
  unfolding first_calls context_calls
  client_calls addrs opts none = panics nil_pointer
  client_calls addrs opts (some c) = done (first_calls addrs opts ++ context_calls c)

  unfoldable pub new_client : List Bytes → Options X → Outcome (List (Call X))
  unfolding client_calls
  new_client addrs opts = client_calls addrs opts opts.context

-- `mqttBroker`, with the calls on the options that its client was made of
pub record Broker (X : Type 0) : Type 0 where
  pub addrs : List Bytes
  pub opts : Options X
  pub client : List (Call X)

-- `b.opts.ClientId` with the id of the context, if there is one
unfoldable pub with_context_id : {X : Type 0} → Options X → Option Bytes → Options X
with_context_id o none = o
with_context_id o (some id) = if length id == 0 then o else record o { client_id = id }

module _ {X : Type 0} (get_codec : Bytes → Option X) (new_helper : X → X) where
  unfoldable pub broker_of : Bytes → Options X → Option Context → Outcome (Broker X)
  unfolding new_client with_context_id value
  broker_of generated o none = panics nil_pointer
  broker_of generated o (some c) = new_client generated o.addrs o >>= λ calls. done (record {
    addrs = o.addrs;
    opts = with_context_id o (as_text (value client_id c));
    client = calls;
  })

  unfoldable pub new_broker : Bytes → List (BrokerOption X) → Outcome (Broker X)
  unfolding broker_of new_options_and_apply
  new_broker generated opts =
      let o = new_options_and_apply get_codec new_helper opts in broker_of generated o o.context

  -- `Init`; `false` is its error while the client is connected
  unfoldable pub init : Bool → List (BrokerOption X) → Broker X → Bool × Broker X
  unfolding apply set_addrs
  init true opts b = (false, b)
  init false opts b =
      let o = apply get_codec new_helper opts b.opts in
      (true, record b { opts = o; addrs = set_addrs o.addrs })
