-- ===== src/Settings/Messages/Effects.antt =====
-- What the options of Publish and Subscribe in broker/mqtt/options.go, and those of
-- RegisterSubscriber in transport/mqtt/server.go, have of an effect on a client.
use kratos_transport_rpc.Prelude.{
  ℕ, ◌≡◌, refl, ap, true, false, Option, none, some, List, [], ◌∷◌, ◌++◌, map, Bytes, Bool-cases,
  inl, inr,
}
use kratos_transport_rpc.Io.{done}
use kratos_transport_rpc.Settings.{
  Context, byte, value, with_value, as_flag, as_byte, qos_subscribe, qos_publish, retained_publish,
}
use kratos_transport_rpc.Settings.Messages.{
  PublishOption, with_publish_context, with_publish_qos, with_publish_retained, apply_publish,
  apply_publish_all, new_publish_options, publish_in, publish_raw, SubscribeOption,
  SubscribeOptions, with_subscribe_context, apply_subscribe, apply_subscribe_all,
  new_subscribe_options, registered, subscribe_in, subscribe_with,
}
use kratos_transport_rpc.Transport.{Client, publish, subscribe}

-- a use of a function of the package that makes a publish option
pub data Choice : Type 0 where
  qos : ℕ → Choice
  retained : ℕ → Choice
  context : Context → Choice

abbrev pub option_of : Choice → PublishOption
option_of (qos q) = with_publish_qos q
option_of (retained q) = with_publish_retained q
option_of (context c) = with_publish_context (some c)

-- the contexts that are given do not ask for retained messages themselves
abbrev pub NoneRetained : List Choice → Type 0
NoneRetained [] = Unit
NoneRetained (context c ∷ l) = (as_flag (value retained_publish c) ≡ none) × NoneRetained l
NoneRetained (qos q ∷ l) = NoneRetained l
NoneRetained (retained q ∷ l) = NoneRetained l

-- the last quality of service that is chosen, where a context brings its own or takes it away
abbrev pub last_qos : Option ℕ → List Choice → Option ℕ
last_qos acc [] = acc
last_qos acc (qos q ∷ l) = last_qos (some q) l
last_qos acc (retained q ∷ l) = last_qos acc l
last_qos acc (context c ∷ l) = last_qos (as_byte (value qos_publish c)) l

-- the options of the choices leave a context with that quality of service and no retained flag
apply-choices :
    (l : List Choice) (c : Context)
    → as_flag (value retained_publish c) ≡ none
    → NoneRetained l
    → (c' : Context) × (apply_publish_all (map option_of l) (some c) ≡ some c')
      × (as_flag (value retained_publish c') ≡ none)
      × (as_byte (value qos_publish c') ≡ last_qos (as_byte (value qos_publish c)) l)
unfolding apply_publish_all apply_publish with_publish_qos with_publish_retained with_value value
apply-choices [] c h n = (c, refl, h, refl)
apply-choices (qos q ∷ l) c h n = apply-choices l ((qos_publish, byte q) ∷ c) h n
apply-choices (retained q ∷ l) c h n = apply-choices l ((retained_publish, byte q) ∷ c) refl n
apply-choices (context d ∷ l) c h n = apply-choices l d n.0 n.1

module _ {C H : Type 0} (client : Client C H) where
  -- Whatever options of the package a message is published with, WithPublishRetained included,
  -- the broker is never asked to retain it; the quality of service is the last one that is
  -- chosen, and without a choice the default. The contexts that are passed in do not ask for
  -- retained messages themselves.
  pub publish_raw-choices :
      (topic buf : Bytes) (l : List Choice) (c : C)
      → NoneRetained l
      → publish_raw client topic buf (map option_of l) c
        ≡ done (publish client topic buf (last_qos none l) (some false) c)
  unfolding publish_raw publish_in new_publish_options publish value
  publish_raw-choices topic buf l c n =
      let (ctx, applied, no_flag, q) = apply-choices l [] refl n in
      elim (Bool-cases (client.is_connected c)) [
        | inl on ↦ rw (on, applied, no_flag, q, on)
        | inr off ↦ rw off
      ]

  apply_subscribe_all-append :
      (opts : List SubscribeOption) (opt : SubscribeOption) (o : SubscribeOptions)
      → apply_subscribe_all (opts ++ (opt ∷ [])) o
        ≡ apply_subscribe opt (apply_subscribe_all opts o)
  unfolding apply_subscribe_all
  apply_subscribe_all-append [] opt o = refl
  apply_subscribe_all-append (first ∷ opts) opt o =
      apply_subscribe_all-append opts opt (apply_subscribe first o)

  -- RegisterSubscriber appends the context as the last option, so that the qualities of service
  -- among its options have no effect: the topic is subscribed with what the context says, or the
  -- default, for every list of options.
  pub subscribe_with-registered :
      (topic : Bytes) (handler : H) (ctx : Context) (opts : List SubscribeOption) (c : C)
      → subscribe_with client topic handler (registered ctx opts) c
        ≡ done (subscribe client topic handler (as_byte (value qos_subscribe ctx)) c)
  unfolding subscribe_with registered new_subscribe_options apply_subscribe subscribe
  subscribe_with-registered topic handler ctx opts c =
      let e =
        apply_subscribe_all-append opts (with_subscribe_context (some ctx))
          (record { auto_ack = true; act = 0; queue = []; context = some [] }) in
      elim (Bool-cases (client.is_connected c)) [
        | inl on ↦ rw (on, ap (λ o. o.context) e, subscribe_in, on)
        | inr off ↦ rw (off)
      ]
