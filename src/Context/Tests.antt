-- ===== src/Context/Tests.antt =====
-- server/mqtt/context.go: a path of two parameters.
use kratos_transport_rpc.Prelude.{ℕ, ◌≡◌, refl, true, some, [], ◌∷◌}
use kratos_transport_rpc.Prelude.Text.{codes}
use kratos_transport_rpc.Prelude.Maps.{equal_bytes}
use kratos_transport_rpc.Context.{Params, get, last}

abbrev params : Params
params =
    record { key = codes "sn"; value = codes "42" }
    ∷ record { key = codes "tenant"; value = codes "7" }
    ∷ []

second_parameter : get params (codes "tenant") ≡ (codes "7", true)
unfolding get equal_bytes
second_parameter = refl

last_handler : last {A = ℕ} (1 ∷ 2 ∷ 3 ∷ []) ≡ some 3
unfolding last
last_handler = refl
