-- ===== src/Context.antt =====
-- server/mqtt/context.go: the parameters of a route and the chain of handlers. A handler is a
-- parameter of the model, A.
pub mod Find
mod Tests
use kratos_transport_rpc.Prelude.{
  ℕ, Bool, true, false, Option, none, some, List, [], ◌∷◌, Bytes, if◌then◌else◌,
}
use kratos_transport_rpc.Prelude.Maps.{equal_bytes}

pub record Param : Type 0 where
  pub key : Bytes
  pub value : Bytes

abbrev pub Params : Type 0
Params = List Param

-- `Params.Get`
unfoldable pub get : Params → Bytes → Bytes × Bool
unfolding equal_bytes
get [] name = ([], false)
get (entry ∷ ps) name = if equal_bytes entry.key name then (entry.value, true) else get ps name

-- `Params.ByName`
unfoldable pub by_name : Params → Bytes → Bytes
unfolding get
by_name ps name = (get ps name).0

-- `HandlersChain.Last`; `none` is the nil handler of an empty chain
unfoldable pub last : {A : Type 0} → List A → Option A
last [] = none
last (h ∷ []) = some h
last (h ∷ g ∷ hs) = last (g ∷ hs)
