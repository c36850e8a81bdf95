-- ===== src/Generator/Tests.antt =====
-- cmd/protoc-gen-go-mqtt/mqtt.go: runs.
use kratos_transport_rpc.Prelude.{ℕ, ◌≡◌, refl, Bool, false, none, some, List, [], ◌∷◌, Bytes}
use kratos_transport_rpc.Prelude.Text.{codes}
use kratos_transport_rpc.Generator.{
  Rule, Method, Service, MethodDesc, req, camel_case, camel_case_vars, lower_next, gen_methods,
}
use kratos_transport_rpc.Generator.Names.{SnakeFree, camel_case_lem}
use kratos_transport_rpc.Generator.Numbers.{AllApart, gen_methods-apart}

camel_case_runs : camel_case (codes "_my_field_name_2") ≡ codes "XMyFieldName_2"
unfolding camel_case
camel_case_runs = refl

camel_case_vars_runs : camel_case_vars (codes "user_info.first_name") ≡ codes "UserInfo.FirstName"
unfolding camel_case_vars
camel_case_vars_runs = refl

abbrev rule : Bytes → Rule
rule path = record { pattern = req path; body = []; response_body = codes "*" }

abbrev hello : Method
hello = record {
  go_name = codes "SayHello";
  name = codes "SayHello";
  streaming_client = false;
  streaming_server = false;
  rule = some (rule (codes "/hello"), rule (codes "/hi") ∷ []);
}

abbrev plain : Method
plain = record hello { go_name = codes "Plain"; name = codes "Plain"; rule = none }

-- no variables in any path
abbrev same_path : Bytes → Bytes × Bool
same_path p = (p, false)

numbers : List MethodDesc → List ℕ
numbers [] = []
numbers (d ∷ ds) = d.num ∷ numbers ds

gen_methods_runs :
    numbers
      (gen_methods same_path false (codes "helloworld.Greeter") (hello ∷ plain ∷ hello ∷ []) []).0
    ≡ (0 ∷ 1 ∷ 0 ∷ 2 ∷ 3 ∷ [])
unfolding numbers gen_methods
gen_methods_runs = refl

camel_case_lem_example :
    SnakeFree (camel_case (codes "_my_field"))
    × (lower_next (camel_case (codes "_my_field")) ≡ false)
camel_case_lem_example = camel_case_lem (codes "_my_field")

gen_methods-apart_example :
    AllApart
      (gen_methods same_path false (codes "helloworld.Greeter") (hello ∷ plain ∷ hello ∷ []) []).0
gen_methods-apart_example =
    gen_methods-apart same_path false (codes "helloworld.Greeter") (hello ∷ plain ∷ hello ∷ []) []

abbrev greeter : Service
greeter = record { full_name = codes "helloworld.Greeter"; methods = plain ∷ hello ∷ [] }
