-- ===== src/Transport/Tests.antt =====
-- transport/mqtt/server.go: runs with a client whose first `Connect` fails.
use kratos_transport_rpc.Prelude.{
  ℕ, zero, suc, ◌≡◌, refl, Bool, true, false, Option, none, some, List, [], ◌∷◌, Bytes, inl, inr,
  ◌⊎◌,
}
use kratos_transport_rpc.Prelude.Text.{codes}
use kratos_transport_rpc.Prelude.Maps.{store}
use kratos_transport_rpc.Transport.{
  BrokerError, not_connected, failed, Client, SubscribeOption, Server, publish, start, on_connect,
  on_connect_init, register_subscriber,
}
use kratos_transport_rpc.Transport.Starts.{
  Steps, stay, next, connected, moved, registered, start-stuck,
}
use kratos_transport_rpc.Io.{done}
use kratos_transport_rpc.Transport.Tokens.{connect_retry_all, connect_retry-Ends}
use kratos_transport_rpc.Transport.Connects.{Accepts, on_connect-subscribes}

-- Whether it is connected, whether the next `Connect` fails, and the topics.
pub record Fake : Type 0 where
  pub online : Bool
  pub refuse : Bool
  pub topics : List Bytes

unfoldable pub fake_connect : Bool → Fake → Option BrokerError × Fake
fake_connect true c = (some (failed 5), record c { refuse = false })
fake_connect false c = (none, record c { online = true })

abbrev pub fake : Client Fake ℕ
fake = record {
  is_connected = λ c. c.online;
  connect = λ c. fake_connect c.refuse c;
  disconnect = λ c. record c { online = false };
  publish = λ topic qos retained buf c. (none, c);
  subscribe = λ topic qos h c. (none, record c { topics = topic ∷ c.topics });
}

abbrev pub server : Server Fake ℕ
server = record {
  started = false;
  err = none;
  subscriber_opts = [];
  broker = record { online = false; refuse = true; topics = [] };
}

abbrev after_failure : Server Fake ℕ
after_failure = record server {
  err = some (failed 5);
  broker = record { online = false; refuse = false; topics = [] };
}

start_runs : start fake server ≡ (some (failed 5), after_failure)
unfolding start fake_connect
start_runs = refl

publish_runs : (publish fake (codes "t") [] none none server.broker).0 ≡ some not_connected
unfolding publish
publish_runs = refl

-- The client connects later by itself, and the server still does not start.
abbrev pub recovered : Server Fake ℕ
recovered = record after_failure {
  started = true;
  broker = record { online = true; refuse = false; topics = [] };
}

pub recovers : Steps fake (start fake server).1 recovered
unfolding start fake_connect on_connect
recovers =
    next (moved (record { online = true; refuse = false; topics = [] })) (next connected stay)

start-stuck_example : start fake recovered ≡ (some (failed 5), recovered)
unfolding start fake_connect
start-stuck_example = start-stuck fake server recovered (failed 5) refl recovers

pub IsIn : Bytes → List Bytes → Type 0
IsIn t [] = ⊥
IsIn t (u ∷ l) = (t ≡ u) ⊎ IsIn t l

pub fake-Accepts : Accepts fake (λ c t. IsIn t c.topics)
unfolding IsIn
fake-Accepts = record {
  accepts = λ topic qos h c conn. inl refl;
  keeps = λ topic other qos h c had. inr had;
  stays = λ topic qos h c conn. conn;
}

abbrev opt : SubscribeOption ℕ
opt = record { handler = 7; qos = none }

abbrev online_server : Server Fake ℕ
online_server = record server {
  subscriber_opts = (codes "a/req", opt) ∷ (codes "b/req", opt) ∷ [];
  broker = record { online = true; refuse = false; topics = [] };
}

goes_online : Steps fake (register_subscriber fake (codes "a/req") opt server).1 online_server
unfolding register_subscriber store
goes_online =
    next (registered (codes "b/req") opt)
      (next (moved (record { online = true; refuse = false; topics = [] })) stay)

on_connect-subscribes_example :
    IsIn (codes "a/req") (on_connect fake online_server).broker.topics
    × IsIn (codes "a/req") (on_connect_init fake online_server).broker.topics
    × ((on_connect fake online_server).started ≡ true)
on_connect-subscribes_example =
    on_connect-subscribes fake (λ c t. IsIn t c.topics) fake-Accepts (codes "a/req") opt server
      online_server goes_online refl

-- The number of attempts that are still refused; each that is not refused is not over in time.
abbrev slow : ℕ → Bool × Option BrokerError × ℕ
slow zero = (false, none, 0)
slow (suc n) = (true, some (failed 1), n)

connect_retry-Ends_example : connect_retry_all slow (λ n. false) 2 2 ≡ done 0
connect_retry-Ends_example =
    connect_retry-Ends slow (λ n. false) 2 2 refl ((refl, refl), ((refl, refl), tt)) (inl refl)
