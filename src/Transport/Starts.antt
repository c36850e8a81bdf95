-- ===== src/Transport/Starts.antt =====
-- `Start` over the life of a server.
use kratos_transport_rpc.Prelude.{
  ◌≡◌, refl, ap, ◌∙◌, Bool, Bool-cases, inl, inr, true, false, Option, none, some, Bytes,
}
use kratos_transport_rpc.Transport.{
  BrokerError, Client, SubscribeOption, Server, connect_broker, finish_start, start_when,
  start_from, start, stop, on_connect, on_connect_init, register_subscriber,
}

module _ {C H : Type 0} (client : Client C H) where
  -- What can happen to a server, whatever the client does meanwhile.
  pub data Step : Server C H → Server C H → Type 0 where
    started_by : {s : Server C H} → Step s (start client s).1
    stopped : {s : Server C H} → Step s (stop client s)
    connected : {s : Server C H} → Step s (on_connect client s)
    connected_init : {s : Server C H} → Step s (on_connect_init client s)
    registered :
        {s : Server C H} (topic : Bytes) (opt : SubscribeOption H)
        → Step s (register_subscriber client topic opt s).1
    moved : {s : Server C H} (c : C) → Step s (record s { broker = c })

  pub data Steps : Server C H → Server C H → Type 0 where
    stay : {s : Server C H} → Steps s s
    next : {s t u : Server C H} → Step s t → Steps t u → Steps s u

  start-failed : (s : Server C H) (e : BrokerError) → s.err ≡ some e → start client s ≡ (some e, s)
  unfolding start start_from
  start-failed s e h = ap (λ o. start_from client o s) h

  register-err :
      (topic : Bytes) (opt : SubscribeOption H) (s : Server C H)
      → (register_subscriber client topic opt s).1.err ≡ s.err
  unfolding register_subscriber
  register-err topic opt s = elim (Bool-cases s.started) [
    | inl yes_started ↦ rw yes_started
    | inr not_started ↦ rw not_started
  ]

  Step-err : (s t : Server C H) (e : BrokerError) → s.err ≡ some e → Step s t → t.err ≡ some e
  unfolding stop on_connect on_connect_init
  Step-err s t e h started_by = ap (λ x. x.1.err) (start-failed s e h) ∙ h
  Step-err s t e h stopped = h
  Step-err s t e h connected = h
  Step-err s t e h connected_init = h
  Step-err s t e h (registered topic opt) = register-err topic opt s ∙ h
  Step-err s t e h (moved c) = h

  Steps-err : (s t : Server C H) (e : BrokerError) → s.err ≡ some e → Steps s t → t.err ≡ some e
  Steps-err s t e h stay = h
  Steps-err s u e h (next {t = t} step rest) = Steps-err t u e (Step-err s t e h step) rest

  finish_start-err :
      (s : Server C H) (r : Option BrokerError × C) (e : BrokerError)
      → (finish_start client s r).0 ≡ some e
      → (finish_start client s r).1.err ≡ some e
  unfolding finish_start
  finish_start-err s (none, c) e h = cc
  finish_start-err s (some x, c) e h = h

  start_when-err :
      (b : Bool) (s : Server C H) (e : BrokerError)
      → (start_when client b s).0 ≡ some e
      → (start_when client b s).1.err ≡ some e
  unfolding start_when
  start_when-err true s e h = cc
  start_when-err false s e h = finish_start-err s (connect_broker client s.broker) e h

  start_from-err :
      (o : Option BrokerError) (s : Server C H) (e : BrokerError)
      → s.err ≡ o
      → (start_from client o s).0 ≡ some e
      → (start_from client o s).1.err ≡ some e
  unfolding start_from
  start_from-err (some x) s e q h = q ∙ h
  start_from-err none s e q h = start_when-err s.started s e h

  -- Once `Start` has returned an error, every later `Start` returns the same error and changes
  -- nothing, whatever happens in between: starts, stops, registrations, and connects of the
  -- client that succeed.
  pub start-stuck :
      (s t : Server C H) (e : BrokerError)
      → (start client s).0 ≡ some e
      → Steps (start client s).1 t
      → start client t ≡ (some e, t)
  unfolding start
  start-stuck s t e h steps =
      start-failed t e (Steps-err (start client s).1 t e (start_from-err s.err s e refl h) steps)
