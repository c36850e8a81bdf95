-- ===== src/Settings.antt =====
-- broker/options.go and the keys of broker/mqtt/options.go: contexts, the options of a broker, and
-- what New and Apply make of a list of them. A Go closure that a With function returns is a
-- constructor with what it captures. `X` stands for values of other packages (codecs, handlers,
-- TLS configurations, tracing options, loggers, callbacks).
pub mod Choices
pub mod Client
pub mod Messages
pub mod Server
mod Tests
use kratos_transport_rpc.Prelude.{
  ℕ, ◌+◌, Bool, true, false, Option, none, some, List, [], ◌∷◌, ◌++◌, Bytes, ◌==◌, if◌then◌else◌,
}
use kratos_transport_rpc.Io.{is_none}

-- The key types of broker/mqtt/options.go, each with its only value, and all other keys.
pub data Key : Type 0 where
  clean_session auth client_id auto_reconnect resume_subs order_matters : Key
  qos_subscribe qos_publish retained_publish : Key
  other : ℕ → Key

abbrev pub key_number : Key → ℕ
key_number clean_session = 0
key_number auth = 1
key_number client_id = 2
key_number auto_reconnect = 3
key_number resume_subs = 4
key_number order_matters = 5
key_number qos_subscribe = 6
key_number qos_publish = 7
key_number retained_publish = 8
key_number (other n) = 9 + n

-- `*AuthRecord`, without the pointer
pub record AuthRecord : Type 0 where
  pub username : Bytes
  pub password : Bytes

-- An `interface{}` by the types that the code asserts.
pub data Value : Type 0 where
  flag : Bool → Value
  byte : ℕ → Value
  text : Bytes → Value
  auth_record : Option AuthRecord → Value
  opaque : ℕ → Value

-- `context.Context`: what `context.WithValue` has added to the background, the newest first
abbrev pub Context : Type 0
Context = List (Key × Value)

unfoldable pub with_value : Key → Value → Context → Context
with_value k v c = (k, v) ∷ c

-- `Context.Value`
unfoldable pub value : Key → Context → Option Value
value k [] = none
value k ((j, v) ∷ c) = if key_number j == key_number k then some v else value k c

-- type assertions with `ok`
abbrev pub as_flag : Option Value → Option Bool
as_flag (some (flag b)) = some b
as_flag _ = none

abbrev pub as_byte : Option Value → Option ℕ
as_byte (some (byte n)) = some n
as_byte _ = none

abbrev pub as_text : Option Value → Option Bytes
as_text (some (text t)) = some t
as_text _ = none

abbrev pub as_auth : Option Value → Option AuthRecord
as_auth (some (auth_record a)) = a
as_auth _ = none

-- `if o.Context == nil { o.Context = context.Background() }`
abbrev pub or_background : Option Context → Context
or_background none = []
or_background (some c) = c

pub record Options (X : Type 0) : Type 0 where
  pub addrs : List Bytes
  pub client_id : Bytes
  pub codec : Option X
  pub error_handler : Option X
  pub secure : Bool
  pub tls_config : Option X
  pub context : Option Context
  pub tracings : List X
  pub on_connect : Option X
  pub disconnect : Option X
  pub log : Option X

-- The four With functions of tracing append what another package makes of their arguments.
pub data BrokerOption (X : Type 0) : Type 0 where
  with_option_context : Option Context → BrokerOption X
  option_context_with_value : Key → Value → BrokerOption X
  with_address : List Bytes → BrokerOption X
  with_client_id : Bytes → BrokerOption X
  with_codec : Bytes → BrokerOption X
  with_error_handler : Option X → BrokerOption X
  with_enable_secure : Bool → BrokerOption X
  with_tls_config : Option X → BrokerOption X
  with_tracing : X → BrokerOption X
  with_on_connect : Option X → BrokerOption X
  with_disconnect : Option X → BrokerOption X
  with_logger : X → BrokerOption X

-- the context that is kept where there is one
abbrev pub context_or : Option Context → Option Context → Option Context
context_or none ctx = ctx
context_or (some c) ctx = some c

unfoldable pub new_options : {X : Type 0} → Options X
new_options = record {
  addrs = [];
  client_id = [];
  codec = none;
  error_handler = none;
  secure = false;
  tls_config = none;
  context = some [];
  tracings = [];
  on_connect = none;
  disconnect = none;
  log = none;
}

-- `get_codec` is `encoding.GetCodec` and `new_helper` is `log.NewHelper`.
module _ {X : Type 0} (get_codec : Bytes → Option X) (new_helper : X → X) where
  -- one option on `*Options`
  unfoldable pub apply_one : BrokerOption X → Options X → Options X
  unfolding with_value
  apply_one (with_option_context ctx) o = record o { context = context_or o.context ctx }
  apply_one (option_context_with_value k v) o = record o {
    context = some (with_value k v (or_background o.context));
  }
  apply_one (with_address l) o = record o { addrs = l }
  apply_one (with_client_id id) o = record o { client_id = id }
  apply_one (with_codec name) o = record o { codec = get_codec name }
  apply_one (with_error_handler h) o = record o { error_handler = h }
  apply_one (with_enable_secure enable) o = record o { secure = enable }
  apply_one (with_tls_config config) o = record o {
    tls_config = config;
    secure = if is_none config then o.secure else true;
  }
  apply_one (with_tracing t) o = record o { tracings = o.tracings ++ (t ∷ []) }
  apply_one (with_on_connect f) o = record o { on_connect = f }
  apply_one (with_disconnect f) o = record o { disconnect = f }
  apply_one (with_logger l) o = record o { log = some (new_helper l) }

  -- `Apply`
  unfoldable pub apply : List (BrokerOption X) → Options X → Options X
  unfolding apply_one
  apply [] o = o
  apply (opt ∷ opts) o = apply opts (apply_one opt o)

  unfoldable pub new_options_and_apply : List (BrokerOption X) → Options X
  unfolding apply new_options
  new_options_and_apply opts = apply opts new_options

-- the options of broker/mqtt/options.go
module _ {X : Type 0} where
  unfoldable pub mqtt_clean_session : Bool → BrokerOption X
  mqtt_clean_session enable = option_context_with_value clean_session (flag enable)

  unfoldable pub mqtt_auth : Bytes → Bytes → BrokerOption X
  mqtt_auth username password =
      option_context_with_value auth
        (auth_record (some (record { username = username; password = password })))

  unfoldable pub mqtt_client_id : Bytes → BrokerOption X
  mqtt_client_id id = option_context_with_value client_id (text id)

  unfoldable pub mqtt_auto_reconnect : Bool → BrokerOption X
  mqtt_auto_reconnect enable = option_context_with_value auto_reconnect (flag enable)

  unfoldable pub mqtt_resume_subs : Bool → BrokerOption X
  mqtt_resume_subs enable = option_context_with_value resume_subs (flag enable)

  unfoldable pub mqtt_order_matters : Bool → BrokerOption X
  mqtt_order_matters enable = option_context_with_value order_matters (flag enable)
