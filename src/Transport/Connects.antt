-- ===== src/Transport/Connects.antt =====
-- What the connect callback subscribes.
use kratos_transport_rpc.Prelude.{
  ℕ, ◌≡◌, refl, ap, sym, subst, ◌∙◌, Bool-cases, inl, inr, true, false, Bool, Option, none, some,
  [], ◌∷◌, Bytes,
}
use kratos_transport_rpc.Prelude.Maps.{
  TextMap, lookup, store, equal_bytes, equal_bytes-true, equal_bytes_refl, lookup-store,
  lookup-store_other,
}
use kratos_transport_rpc.Transport.{
  BrokerError, Client, SubscribeOption, Server, or_default, subscribe, do_register_subscriber,
  register_all, register_subscriber, on_connect, on_connect_init, connect_broker, finish_start,
  start_when, start_from, start, stop,
}
use kratos_transport_rpc.Transport.Starts.{
  Step, started_by, stopped, connected, connected_init, registered, moved, Steps, stay, next,
}

-- What the documentation of the client says of `Subscribe`: while the client is connected, the
-- topic is subscribed unless an error is returned; topics that were subscribed before stay so,
-- and the client stays connected. `Accepts` is a client whose server refuses no topic.
pub record Accepts {C H : Type 0} (client : Client C H) (Subscribed : C → Bytes → Type 0)
    : Type 0 where
  pub accepts :
      (topic : Bytes) (qos : ℕ) (h : H) (c : C)
      → client.is_connected c ≡ true
      → Subscribed (client.subscribe topic qos h c).1 topic
  pub keeps :
      (topic other : Bytes) (qos : ℕ) (h : H) (c : C)
      → Subscribed c other
      → Subscribed (client.subscribe topic qos h c).1 other
  pub stays :
      (topic : Bytes) (qos : ℕ) (h : H) (c : C)
      → client.is_connected c ≡ true
      → client.is_connected (client.subscribe topic qos h c).1 ≡ true

module _ {C H : Type 0} (client : Client C H) where
  pub register-stores :
      (topic : Bytes) (opt : SubscribeOption H) (s : Server C H)
      → (register_subscriber client topic opt s).1.subscriber_opts
        ≡ store topic opt s.subscriber_opts
  unfolding register_subscriber
  register-stores topic opt s = elim (Bool-cases s.started) [
    | inl now ↦ rw now
    | inr later ↦ rw later
  ]

  -- A subscriber is stored under the topic.
  abbrev pub Has : Bytes → Server C H → Type 0
  Has key s = (opt : SubscribeOption H) × (lookup key s.subscriber_opts ≡ some opt)

  pub register-Has :
      (topic : Bytes) (opt : SubscribeOption H) (s : Server C H)
      → Has topic (register_subscriber client topic opt s).1
  register-Has topic opt s = (
    opt,
    ap (lookup topic) (register-stores topic opt s) ∙ lookup-store topic opt s.subscriber_opts,
  )

  pub register-keeps_Has :
      (key topic : Bytes) (opt : SubscribeOption H) (s : Server C H)
      → Has key s
      → Has key (register_subscriber client topic opt s).1
  register-keeps_Has key topic opt s (old, found) = elim (Bool-cases (equal_bytes topic key)) [
    | inl same ↦
        subst (λ k. Has k (register_subscriber client topic opt s).1)
          (equal_bytes-true topic key same) (register-Has topic opt s)
    | inr other ↦ (
      old,
      ap (lookup key) (register-stores topic opt s)
          ∙ lookup-store_other topic key opt s.subscriber_opts (λ e. absurd (
              let q : false ≡ true =
                sym other ∙ subst (λ k. equal_bytes topic k ≡ true) e (equal_bytes_refl topic) in
              cc))
          ∙ found,
    )
  ]

  finish_start-opts :
      (s : Server C H) (r : Option BrokerError × C)
      → (finish_start client s r).1.subscriber_opts ≡ s.subscriber_opts
  unfolding finish_start
  finish_start-opts s (none, c) = refl
  finish_start-opts s (some e, c) = refl

  start_when-opts :
      (b : Bool) (s : Server C H) → (start_when client b s).1.subscriber_opts ≡ s.subscriber_opts
  unfolding start_when
  start_when-opts true s = refl
  start_when-opts false s = finish_start-opts s (connect_broker client s.broker)

  start_from-opts :
      (o : Option BrokerError) (s : Server C H)
      → (start_from client o s).1.subscriber_opts ≡ s.subscriber_opts
  unfolding start_from
  start_from-opts (some e) s = refl
  start_from-opts none s = start_when-opts s.started s

  Step-Has : (key : Bytes) (s t : Server C H) → Step client s t → Has key s → Has key t
  unfolding start stop on_connect on_connect_init
  Step-Has key s t started_by (opt, found) =
      (opt, ap (lookup key) (start_from-opts s.err s) ∙ found)
  Step-Has key s t stopped has = has
  Step-Has key s t connected has = has
  Step-Has key s t connected_init has = has
  Step-Has key s t (registered topic opt) has = register-keeps_Has key topic opt s has
  Step-Has key s t (moved c) has = has

  -- The entry of a topic stays, whatever happens to the server.
  pub Steps-Has : (key : Bytes) (s t : Server C H) → Steps client s t → Has key s → Has key t
  Steps-Has key s t stay has = has
  Steps-Has key s u (next {t = t} step rest) has =
      Steps-Has key t u rest (Step-Has key s t step has)

module _ {C H : Type 0} (client : Client C H) (Subscribed : C → Bytes → Type 0)
    (ok : Accepts client Subscribed) where
  register_one :
      (topic : Bytes) (opt : SubscribeOption H) (c : C)
      → client.is_connected c ≡ true
      → do_register_subscriber client topic opt c
        ≡ client.subscribe topic (or_default 2 opt.qos) opt.handler c
  unfolding do_register_subscriber subscribe
  register_one topic opt c h = rw h

  register_all-keeps :
      (opts : TextMap (SubscribeOption H)) (other : Bytes) (c : C)
      → client.is_connected c ≡ true
      → Subscribed c other
      → Subscribed (register_all client opts c) other
  unfolding register_all
  register_all-keeps [] other c h s = s
  register_all-keeps ((topic, opt) ∷ opts) other c h s =
      let e = ap (λ x. x.1) (register_one topic opt c h) in
      register_all-keeps opts other (do_register_subscriber client topic opt c).1
        (ap client.is_connected e ∙ ok.stays topic (or_default 2 opt.qos) opt.handler c h)
        (subst (λ x. Subscribed x other) (sym e)
          (ok.keeps topic other (or_default 2 opt.qos) opt.handler c s))

  pub register_all-Subscribed :
      (opts : TextMap (SubscribeOption H)) (topic : Bytes) (opt : SubscribeOption H) (c : C)
      → client.is_connected c ≡ true
      → lookup topic opts ≡ some opt
      → Subscribed (register_all client opts c) topic
  unfolding register_all lookup
  register_all-Subscribed [] topic opt c h found = absurd cc
  register_all-Subscribed ((k, o) ∷ opts) topic opt c h found =
      let e = ap (λ x. x.1) (register_one k o c h) in
      let c1 = (do_register_subscriber client k o c).1 in
      let h1 = ap client.is_connected e ∙ ok.stays k (or_default 2 o.qos) o.handler c h in
      elim (Bool-cases (equal_bytes k topic)) [
        | inl same ↦ register_all-keeps opts topic c1 h1 (
            subst (λ x. Subscribed c1 x) (equal_bytes-true k topic same)
              (subst (λ x. Subscribed x k) (sym e)
                (ok.accepts k (or_default 2 o.qos) o.handler c h)))
        | inr other ↦ register_all-Subscribed opts topic opt c1 h1 (rw other at found)
      ]

  -- A topic that a server has a subscriber for is subscribed after either connect callback of a
  -- connected client that accepts topics.
  pub Has-subscribes :
      (topic : Bytes) (s : Server C H)
      → Has client topic s
      → client.is_connected s.broker ≡ true
      → Subscribed (on_connect client s).broker topic
        × Subscribed (on_connect_init client s).broker topic
  unfolding on_connect on_connect_init
  Has-subscribes topic s (opt, found) h =
      let all = register_all-Subscribed s.subscriber_opts topic opt s.broker h found in (all, all)

  -- A topic that RegisterSubscriber has been called for, on a server that has started or has not, is
  -- subscribed after the connect callback of NewServer and after that of InitServer, whatever has
  -- happened to the server since the call: starts, stops, connects, other registrations and whatever
  -- the client has done. The client is connected then, and accepts topics. After the callback of
  -- NewServer the server has started.
  pub on_connect-subscribes :
      (topic : Bytes) (opt : SubscribeOption H) (s s1 : Server C H)
      → Steps client (register_subscriber client topic opt s).1 s1
      → client.is_connected s1.broker ≡ true
      → Subscribed (on_connect client s1).broker topic
        × Subscribed (on_connect_init client s1).broker topic
        × ((on_connect client s1).started ≡ true)
  unfolding on_connect
  on_connect-subscribes topic opt s s1 steps h =
      let has =
        Steps-Has client topic (register_subscriber client topic opt s).1 s1 steps
          (register-Has client topic opt s) in
      let (now, init) = Has-subscribes topic s1 has h in (now, init, refl)
