-- ===== src/Settings/Client/Last.antt =====
-- Of several calls of one setter the last is in force: newClient of broker/mqtt/mqtt.go read this
-- way.
use kratos_transport_rpc.Prelude.{
  ◌≡◌, refl, ap, sym, ◌∙◌, Bool, true, false, Option, none, some, List, [], ◌∷◌, ◌++◌, map, Bytes,
  length, ◌==◌, if◌then◌else◌, Bool-cases, inl, inr,
}
use kratos_transport_rpc.Settings.Choices.{or_else, or_else-none, or_else_assoc}
use kratos_transport_rpc.Settings.Client.{
  Callback, Call, set_clean_session, set_auto_reconnect, set_resume_subs, set_order_matters,
  set_client_id, set_on_connect, add_broker, if_some, id_call,
}

abbrev pub bind : {A B : Type 0} → Option A → (A → Option B) → Option B
bind none f = none
bind (some a) f = f a

pub bind-none : {A B : Type 0} (o : Option A) → bind {B = B} o (λ a. none) ≡ none
bind-none none = refl
bind-none (some a) = refl

pub bind-some : {A : Type 0} (o : Option A) → bind o (λ a. some a) ≡ o
bind-some none = refl
bind-some (some a) = refl

pub if_same : {A : Type 0} (b : Bool) (a : A) → (if b then a else a) ≡ a
if_same true a = refl
if_same false a = refl

module _ {X A : Type 0} (read : Call X → Option A) where
  -- what the last call that `read` knows has set
  unfoldable pub effective : List (Call X) → Option A
  effective [] = none
  effective (c ∷ calls) = or_else (effective calls) (read c)

  pub effective-append :
      (calls more : List (Call X))
      → effective (calls ++ more) ≡ or_else (effective more) (effective calls)
  unfolding effective
  effective-append [] more = sym (or_else-none (effective more))
  effective-append (c ∷ calls) more =
      ap (λ a. or_else a (read c)) (effective-append calls more)
      ∙ or_else_assoc (effective more) (effective calls) (read c)

  -- calls that `read` does not know, of a list of addresses and of an option
  pub effective-map :
      (f : Bytes → Call X) (l : List Bytes)
      → ((a : Bytes) → read (f a) ≡ none)
      → effective (map f l) ≡ none
  unfolding effective
  effective-map f [] silent = refl
  effective-map f (a ∷ l) silent = rw (effective-map f l silent, silent a)

  pub effective-if_some :
      {B : Type 0} (f : B → List (Call X)) (o : Option B)
      → effective (if_some f o) ≡ bind o (λ b. effective (f b))
  unfolding effective
  effective-if_some f none = refl
  effective-if_some f (some b) = refl

  pub effective-id_call :
      (id : Bytes)
      → effective (id_call id) ≡ (if length id == 0 then none else read (set_client_id id))
  unfolding effective
  effective-id_call id = elim (Bool-cases (length id == 0)) [
    | inl empty ↦ rw empty
    | inr full ↦ rw full
  ]

module _ {X : Type 0} where
  unfoldable pub clean_session_of : Call X → Option Bool
  clean_session_of (set_clean_session b) = some b
  clean_session_of _ = none

  unfoldable pub auto_reconnect_of : Call X → Option Bool
  auto_reconnect_of (set_auto_reconnect b) = some b
  auto_reconnect_of _ = none

  unfoldable pub resume_subs_of : Call X → Option Bool
  resume_subs_of (set_resume_subs b) = some b
  resume_subs_of _ = none

  unfoldable pub order_matters_of : Call X → Option Bool
  order_matters_of (set_order_matters b) = some b
  order_matters_of _ = none

  unfoldable pub client_id_of : Call X → Option Bytes
  client_id_of (set_client_id id) = some id
  client_id_of _ = none

  unfoldable pub on_connect_of : Call X → Option (Callback X)
  on_connect_of (set_on_connect f) = some f
  on_connect_of _ = none

  -- the addresses that are added, in order
  unfoldable pub brokers_of : List (Call X) → List Bytes
  brokers_of [] = []
  brokers_of (add_broker a ∷ calls) = a ∷ brokers_of calls
  brokers_of (_ ∷ calls) = brokers_of calls

module _ {X : Type 0} where
  pub brokers_of-append :
      (calls more : List (Call X))
      → brokers_of (calls ++ more) ≡ brokers_of calls ++ brokers_of more
  unfolding brokers_of
  brokers_of-append [] more = refl
  brokers_of-append (add_broker a ∷ calls) more = ap (◌∷◌ a) (brokers_of-append calls more)
  brokers_of-append (set_clean_session b ∷ calls) more = brokers_of-append calls more
  brokers_of-append (_ ∷ calls) more = brokers_of-append calls more

  pub brokers_of-if_some :
      {B : Type 0} (f : B → List (Call X)) (o : Option B)
      → ((b : B) → brokers_of (f b) ≡ [])
      → brokers_of (if_some f o) ≡ []
  unfolding brokers_of
  brokers_of-if_some f none silent = refl
  brokers_of-if_some f (some b) silent = silent b

pub brokers_of-map : (X : Type 0) (l : List Bytes) → brokers_of {X = X} (map add_broker l) ≡ l
unfolding brokers_of
brokers_of-map X [] = refl
brokers_of-map X (a ∷ l) = ap (◌∷◌ a) (brokers_of-map X l)

pub brokers_of-id_call : (X : Type 0) (id : Bytes) → brokers_of {X = X} (id_call id) ≡ []
unfolding brokers_of
brokers_of-id_call X id = elim (Bool-cases (length id == 0)) [
  | inl empty ↦ rw empty
  | inr full ↦ rw full
]
