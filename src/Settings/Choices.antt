-- ===== src/Settings/Choices.antt =====
-- What a list of options of broker/options.go chooses: for each setting the last option that makes
-- it. Apply is read this way.
use kratos_transport_rpc.Prelude.{
  ◌≡◌, refl, ap, sym, ◌∙◌, Option, none, some, List, [], ◌∷◌, Bytes, ◌==◌, if◌then◌else◌,
  Bool-cases, inl, inr,
}
use kratos_transport_rpc.Settings.{
  Key, key_number, Value, Context, value, with_value, Options, BrokerOption, with_option_context,
  option_context_with_value, with_address, with_client_id, with_on_connect, new_options, apply_one,
  apply, new_options_and_apply,
}

-- the second where the first is missing
abbrev pub or_else : {A : Type 0} → Option A → Option A → Option A
or_else none b = b
or_else (some a) b = some a

abbrev pub or_default : {A : Type 0} → A → Option A → A
or_default d none = d
or_default d (some a) = a

pub or_else-none : {A : Type 0} (a : Option A) → or_else a none ≡ a
or_else-none none = refl
or_else-none (some a) = refl

pub or_else_assoc :
    {A : Type 0} (a b c : Option A) → or_else (or_else a b) c ≡ or_else a (or_else b c)
or_else_assoc none b c = refl
or_else_assoc (some a) b c = refl

or_default-or_else :
    {A : Type 0} (d : A) (a b : Option A)
    → or_default (or_default d b) a ≡ or_default d (or_else a b)
or_default-or_else d none b = refl
or_default-or_else d (some a) b = refl

module _ {X : Type 0} where
  -- the value of the last option for a key
  abbrev value_of : Key → BrokerOption X → Option Value
  value_of k (option_context_with_value j v) = if key_number j == key_number k then some v else none
  value_of k _ = none

  unfoldable pub last_value : Key → List (BrokerOption X) → Option Value
  last_value k [] = none
  last_value k (opt ∷ opts) = or_else (last_value k opts) (value_of k opt)

  abbrev address_of : BrokerOption X → Option (List Bytes)
  address_of (with_address l) = some l
  address_of _ = none

  unfoldable pub last_address : List (BrokerOption X) → Option (List Bytes)
  last_address [] = none
  last_address (opt ∷ opts) = or_else (last_address opts) (address_of opt)

  abbrev on_connect_of : BrokerOption X → Option (Option X)
  on_connect_of (with_on_connect f) = some f
  on_connect_of _ = none

  unfoldable pub last_on_connect : List (BrokerOption X) → Option (Option X)
  last_on_connect [] = none
  last_on_connect (opt ∷ opts) = or_else (last_on_connect opts) (on_connect_of opt)

  -- the context that the options leave of one that is there
  context_one : BrokerOption X → Context → Context
  unfolding with_value
  context_one (option_context_with_value k v) c = with_value k v c
  context_one _ c = c

  context_after : List (BrokerOption X) → Context → Context
  unfolding context_one
  context_after [] c = c
  context_after (opt ∷ opts) c = context_after opts (context_one opt c)

  value-context_one :
      (k : Key) (opt : BrokerOption X) (c : Context)
      → value k (context_one opt c) ≡ or_else (value_of k opt) (value k c)
  unfolding context_one value with_value
  value-context_one k (option_context_with_value j v) c =
      elim (Bool-cases (key_number j == key_number k)) [ inl same ↦ rw same | inr apart ↦ rw apart ]
  value-context_one k _ c = refl

  value-context_after :
      (k : Key) (opts : List (BrokerOption X)) (c : Context)
      → value k (context_after opts c) ≡ or_else (last_value k opts) (value k c)
  unfolding context_after last_value
  value-context_after k [] c = refl
  value-context_after k (opt ∷ opts) c =
      value-context_after k opts (context_one opt c)
      ∙ ap (or_else (last_value k opts)) (value-context_one k opt c)
      ∙ sym (or_else_assoc (last_value k opts) (value_of k opt) (value k c))

  module _ (get_codec : Bytes → Option X) (new_helper : X → X) where
    context-apply_one :
        (opt : BrokerOption X) (o : Options X) (c : Context)
        → o.context ≡ some c
        → (apply_one get_codec new_helper opt o).context ≡ some (context_one opt c)
    unfolding apply_one context_one
    context-apply_one (with_option_context ctx) o c h = simp h refl
    context-apply_one (option_context_with_value k v) o c h = simp h refl
    context-apply_one (with_address l) o c h = h
    context-apply_one _ o c h = h

    context-apply :
        (opts : List (BrokerOption X)) (o : Options X) (c : Context)
        → o.context ≡ some c
        → (apply get_codec new_helper opts o).context ≡ some (context_after opts c)
    unfolding apply context_after
    context-apply [] o c h = h
    context-apply (opt ∷ opts) o c h =
        context-apply opts (apply_one get_codec new_helper opt o) (context_one opt c)
          (context-apply_one opt o c h)

    addrs-apply :
        (opts : List (BrokerOption X)) (o : Options X)
        → (apply get_codec new_helper opts o).addrs ≡ or_default o.addrs (last_address opts)
    unfolding apply last_address
    addrs-apply [] o = refl
    addrs-apply (opt ∷ opts) o =
        addrs-apply opts (apply_one get_codec new_helper opt o)
        ∙ ap (λ d. or_default d (last_address opts)) (one opt)
        ∙ or_default-or_else o.addrs (last_address opts) (address_of opt)
      where
        one :
            (opt : BrokerOption X)
            → (apply_one get_codec new_helper opt o).addrs ≡ or_default o.addrs (address_of opt)
        one (with_address l) = refl
        one (with_client_id l) = refl
        one _ = refl

    on_connect-apply :
        (opts : List (BrokerOption X)) (o : Options X)
        → (apply get_codec new_helper opts o).on_connect
          ≡ or_default o.on_connect (last_on_connect opts)
    unfolding apply last_on_connect
    on_connect-apply [] o = refl
    on_connect-apply (opt ∷ opts) o =
        on_connect-apply opts (apply_one get_codec new_helper opt o)
        ∙ ap (λ d. or_default d (last_on_connect opts)) (one opt)
        ∙ or_default-or_else o.on_connect (last_on_connect opts) (on_connect_of opt)
      where
        one :
            (opt : BrokerOption X)
            → (apply_one get_codec new_helper opt o).on_connect
              ≡ or_default o.on_connect (on_connect_of opt)
        one (with_on_connect f) = refl
        one (with_client_id l) = refl
        one _ = refl

    -- What New and Apply make of the options for a client: the context is there, and each of its
    -- keys has its last value; the addresses and the callback are the last ones too.
    pub chosen :
        (opts : List (BrokerOption X))
        → (c : Context) × ((new_options_and_apply get_codec new_helper opts).context ≡ some c)
          × ((k : Key) → value k c ≡ last_value k opts)
          × ((new_options_and_apply get_codec new_helper opts).addrs
              ≡ or_default [] (last_address opts))
          × ((new_options_and_apply get_codec new_helper opts).on_connect
              ≡ or_default none (last_on_connect opts))
    unfolding new_options_and_apply new_options value
    chosen opts = (
      context_after opts [],
      context-apply opts new_options [] refl,
      λ k. value-context_after k opts [] ∙ or_else-none (last_value k opts),
      addrs-apply opts new_options,
      on_connect-apply opts new_options,
    )
