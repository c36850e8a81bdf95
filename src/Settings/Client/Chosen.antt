-- ===== src/Settings/Client/Chosen.antt =====
-- newClient and newBroker of broker/mqtt/mqtt.go: what the client is set to, from the options.
use kratos_transport_rpc.Prelude.{
  ◌≡◌, refl, ap, ◌∙◌, true, Option, none, some, List, [], ◌∷◌, ◌++◌, append-nil, Bytes, length,
  ◌==◌, if◌then◌else◌, Bool-cases, inl, inr,
}
use kratos_transport_rpc.Io.{done}
use kratos_transport_rpc.Settings.{
  Context, Options, BrokerOption, value, as_flag, as_text, as_auth, clean_session, auth, client_id,
  auto_reconnect, resume_subs, order_matters, new_options_and_apply,
}
use kratos_transport_rpc.Settings.Choices.{
  or_else, or_else-none, or_default, last_value, last_address, last_on_connect, chosen,
}
use kratos_transport_rpc.Settings.Client.{
  Broker, Callback, own, given, Call, set_clean_session, set_auto_reconnect, set_resume_subs,
  set_order_matters, set_on_connect, set_on_connection_lost, add_broker, set_tls_config, id_call,
  auth_calls, first_calls, context_calls, client_calls, new_client, with_context_id, broker_of,
  new_broker,
}
use kratos_transport_rpc.Settings.Client.Last.{
  effective, effective-append, effective-map, effective-if_some, effective-id_call, bind, bind-none,
  bind-some, if_same, clean_session_of, auto_reconnect_of, resume_subs_of, order_matters_of,
  client_id_of, on_connect_of, brokers_of, brokers_of-append, brokers_of-map, brokers_of-if_some,
  brokers_of-id_call,
}

abbrev pub callback_of : {X : Type 0} → Option X → Callback X
callback_of none = own
callback_of (some f) = given f

-- the id that is set, where there is one that is not empty
abbrev pub id_or : Bytes → Option Bytes → Bytes
id_or generated none = generated
id_or generated (some id) = if length id == 0 then generated else id

or_else-some : {A : Type 0} (d : A) (a : Option A) → or_else a (some d) ≡ some (or_default d a)
or_else-some d none = refl
or_else-some d (some a) = refl

or_else-callback :
    {X : Type 0} (f : Option X)
    → or_else (bind f (λ g. some (given g))) (some own) ≡ some (callback_of f)
or_else-callback none = refl
or_else-callback (some f) = refl

or_else-id :
    (generated : Bytes) (o : Option Bytes)
    → or_else (bind o (λ id. if length id == 0 then none else some id)) (some generated)
      ≡ some (id_or generated o)
or_else-id generated none = refl
or_else-id generated (some id) = elim (Bool-cases (length id == 0)) [
  | inl empty ↦ rw empty
  | inr full ↦ rw full
]

ruleset calls = (
  effective-append, effective-if_some, effective-id_call, bind-none, bind-some, if_same,
  or_else-none,
)

module _ {X : Type 0} (generated : Bytes) (addrs : List Bytes) (o : Options X) (c : Context) where
  abbrev all_calls : List (Call X)
  all_calls = first_calls generated addrs o ++ context_calls c

  clean_session_eq :
      effective clean_session_of all_calls
      ≡ some (or_default true (as_flag (value clean_session c)))
  unfolding effective clean_session_of first_calls context_calls
  clean_session_eq =
      simp (calls, effective-map clean_session_of add_broker addrs (λ a. refl)) (or_else-some _ _)

  auto_reconnect_eq :
      effective auto_reconnect_of all_calls
      ≡ some (or_default true (as_flag (value auto_reconnect c)))
  unfolding effective auto_reconnect_of first_calls context_calls
  auto_reconnect_eq =
      simp (calls, effective-map auto_reconnect_of add_broker addrs (λ a. refl)) (or_else-some _ _)

  resume_subs_eq :
      effective resume_subs_of all_calls ≡ some (or_default true (as_flag (value resume_subs c)))
  unfolding effective resume_subs_of first_calls context_calls
  resume_subs_eq =
      simp (calls, effective-map resume_subs_of add_broker addrs (λ a. refl)) (or_else-some _ _)

  order_matters_eq : effective order_matters_of all_calls ≡ as_flag (value order_matters c)
  unfolding effective order_matters_of first_calls context_calls
  order_matters_eq = simp (calls, effective-map order_matters_of add_broker addrs (λ a. refl))

  client_id_eq :
      effective client_id_of all_calls ≡ some (id_or generated (as_text (value client_id c)))
  unfolding effective client_id_of first_calls context_calls
  client_id_eq =
      simp (calls, effective-map client_id_of add_broker addrs (λ a. refl))
        (or_else-id generated (as_text (value client_id c)))

  on_connect_eq : effective on_connect_of all_calls ≡ some (callback_of o.on_connect)
  unfolding effective on_connect_of first_calls context_calls
  on_connect_eq =
      simp (calls, effective-map on_connect_of add_broker addrs (λ a. refl)) (or_else-callback _)

  brokers_eq : brokers_of all_calls ≡ addrs
  unfolding brokers_of first_calls context_calls
  brokers_eq = simp (
    brokers_of-append,
    brokers_of-map X,
    brokers_of-if_some {X = X} (λ f. set_on_connect (given f) ∷ []) o.on_connect (λ f. refl),
    brokers_of-if_some {X = X} (λ f. set_on_connection_lost (given f) ∷ []) o.disconnect
        (λ f. refl),
    brokers_of-if_some {X = X} (λ t. set_tls_config t ∷ []) o.tls_config (λ t. refl),
    brokers_of-if_some {X = X} auth_calls (as_auth (value auth c)) (λ a. refl),
    brokers_of-if_some {X = X} id_call (as_text (value client_id c)) (brokers_of-id_call X),
    brokers_of-if_some {X = X} (λ b. set_clean_session b ∷ []) (as_flag (value clean_session c))
        (λ b. refl),
    brokers_of-if_some {X = X} (λ b. set_auto_reconnect b ∷ []) (as_flag (value auto_reconnect c))
        (λ b. refl),
    brokers_of-if_some {X = X} (λ b. set_resume_subs b ∷ []) (as_flag (value resume_subs c))
        (λ b. refl),
    brokers_of-if_some {X = X} (λ b. set_order_matters b ∷ []) (as_flag (value order_matters c))
        (λ b. refl),
    append-nil,
  )

-- The client that newBroker makes is set up by its options, whatever they are and in any order:
-- its addresses are those of the last WithAddress; whether the session is clean, whether it
-- reconnects by itself and whether it resumes subscriptions are what the last option for each
-- says, and true without one; whether order matters is set only by an option; the client id is
-- that of the last option for it, and the generated one where there is none or it is empty; and
-- the callback on a connect is that of the last WithOnConnect, and the broker's own where there
-- is none. The broker is made: no context is missing.
pub new_broker_lem :
    {X : Type 0} (get_codec : Bytes → Option X) (new_helper : X → X) (generated : Bytes)
    (opts : List (BrokerOption X))
    → (b : Broker X) × (new_broker get_codec new_helper generated opts ≡ done b)
      × (brokers_of b.client ≡ or_default [] (last_address opts))
      × (effective clean_session_of b.client
          ≡ some (or_default true (as_flag (last_value clean_session opts))))
      × (effective auto_reconnect_of b.client
          ≡ some (or_default true (as_flag (last_value auto_reconnect opts))))
      × (effective resume_subs_of b.client
          ≡ some (or_default true (as_flag (last_value resume_subs opts))))
      × (effective order_matters_of b.client ≡ as_flag (last_value order_matters opts))
      × (effective client_id_of b.client
          ≡ some (id_or generated (as_text (last_value client_id opts))))
      × (effective on_connect_of b.client
          ≡ some (callback_of (or_default none (last_on_connect opts))))
unfolding new_broker broker_of new_client client_calls
new_broker_lem {X} get_codec new_helper generated opts =
    let o = new_options_and_apply get_codec new_helper opts in
    let (c, context_eq, values, addrs_eq, connect_eq) = chosen get_codec new_helper opts in
    let client = all_calls generated o.addrs o c in
    (
      record {
        addrs = o.addrs;
        opts = with_context_id o (as_text (value client_id c));
        client = client;
      },
      simp context_eq refl,
      brokers_eq generated o.addrs o c ∙ addrs_eq,
      clean_session_eq generated o.addrs o c
          ∙ ap (λ v. some (or_default true (as_flag v))) (values clean_session),
      auto_reconnect_eq generated o.addrs o c
          ∙ ap (λ v. some (or_default true (as_flag v))) (values auto_reconnect),
      resume_subs_eq generated o.addrs o c
          ∙ ap (λ v. some (or_default true (as_flag v))) (values resume_subs),
      order_matters_eq generated o.addrs o c ∙ ap as_flag (values order_matters),
      client_id_eq generated o.addrs o c
          ∙ ap (λ v. some (id_or generated (as_text v))) (values client_id),
      on_connect_eq generated o.addrs o c ∙ ap (λ f. some (callback_of f)) connect_eq,
    )
