-- ===== src/Stubs/Tests.antt =====
-- cmd/protoc-gen-go-mqt/mqt.go on a service of one stream between two unary methods.
use kratos_transport_rpc.Prelude.{
  ◌≡◌, refl, ◌⊎◌, true, false, Option, none, some, List, [], ◌∷◌, ◌++◌, length, Bytes, Bool,
}
use kratos_transport_rpc.Prelude.Text.{codes}
use kratos_transport_rpc.Stubs.Indices.{Indexed, client_methods-Indexed}
use kratos_transport_rpc.Stubs.ClientText.{signature, unary_call, gen_client_method}
use kratos_transport_rpc.Stubs.ServiceText.{Service, gen_service}
use kratos_transport_rpc.Stubs.Braces.{plain, scan_lines}
use kratos_transport_rpc.Stubs.Braces.Methods.{PlainMethod, PlainIdents}
use kratos_transport_rpc.Stubs.Braces.Members.{PlainService}
use kratos_transport_rpc.Stubs.Braces.Files.{PlainFile, generate_file-balanced}
use kratos_transport_rpc.Stubs.FileText.{Version, FileInfo, generate_file}
use kratos_transport_rpc.Stubs.Defined.{
  HasLine, registration, constant, declaration, gen_service-declared,
}
use kratos_transport_rpc.Stubs.{
  Qualify, unexport, Method, desc_methods, desc_streams, client_methods, client_method,
  client_signature, server_signature, server_args, join_comma,
}

abbrev method : Bytes → Bool → Method
method name stream = record {
  go_name = name;
  name = name;
  parent = codes "Greeter";
  input = codes "Req";
  output = codes "Reply";
  streaming_client = false;
  streaming_server = stream;
  deprecated = false;
  leading = [];
}

indices_of_three :
    client_methods 0 0
      (method (codes "A") false ∷ method (codes "B") true ∷ method (codes "C") false ∷ [])
    ≡ ((method (codes "A") false, 0)
        ∷ (method (codes "B") true, 0)
        ∷ (method (codes "C") false, 1)
        ∷ [])
unfolding client_methods client_method
indices_of_three = refl

signature_of_client :
    client_signature (codes "context.Context") (codes "mqtt.CallOption") (method (codes "A") false)
    ≡ codes "A(ctx context.Context, topic string, in *Req, opts ...mqtt.CallOption) (*Reply, error)"
unfolding client_signature
signature_of_client = refl

signature_of_server :
    server_signature (codes "context.Context") (method (codes "A") false)
    ≡ codes "A(context.Context, *Req) (*Reply, error)"
unfolding server_signature server_args join_comma
signature_of_server = refl

client_methods-Indexed_example :
    Indexed
      (desc_methods (method (codes "A") false ∷ method (codes "B") true ∷ []))
      (desc_streams (method (codes "A") false ∷ method (codes "B") true ∷ []))
      (client_methods 0 0 (method (codes "A") false ∷ method (codes "B") true ∷ []))
client_methods-Indexed_example =
    client_methods-Indexed (method (codes "A") false ∷ method (codes "B") true ∷ [])

-- what protogen prints for an identifier of a package
abbrev names : Qualify
names = record {
  context = λ s. codes "context." ++ s;
  mqtt = λ s. codes "mqtt." ++ s;
  errors = λ s. codes "errors." ++ s;
}

names-PlainIdents : PlainIdents names
unfolding plain
names-PlainIdents = record {
  context = refl;
  call_option = refl;
  client = refl;
  server = refl;
  client_stream = refl;
  server_stream = refl;
  package_version = refl;
  new_error = refl;
}

method-PlainMethod : (stream : Bool) → PlainMethod (method (codes "SayHello") stream)
unfolding plain
method-PlainMethod stream = record {
  go_name = refl;
  name = refl;
  parent = refl;
  input = refl;
  output = refl;
  leading = refl;
}

abbrev greeter : Service
greeter = record {
  go_name = codes "Greeter";
  full_name = codes "helloworld.Greeter";
  deprecated = false;
  methods = method (codes "SayHello") false ∷ method (codes "SayHello") true ∷ [];
}

greeter-PlainService : PlainService greeter
unfolding plain
greeter-PlainService = record {
  go_name = refl;
  full_name = refl;
  methods = (method-PlainMethod false, (method-PlainMethod true, tt));
}

abbrev greeter_file : FileInfo
greeter_file = record {
  path = codes "greeter.proto";
  deprecated = false;
  package_name = codes "v1";
  syntax_comments = record { detached = []; leading = [] };
  package_comments = record { detached = codes "// About greetings." ∷ []; leading = [] };
  services = greeter ∷ [];
}

abbrev protoc : Option Version
protoc = some (record { major = 3; minor = 21; patch = 12; suffix = [] })

greeter_file-PlainFile : PlainFile greeter_file
unfolding plain
greeter_file-PlainFile = record {
  path = refl;
  package_name = refl;
  syntax_detached = tt;
  syntax_leading = refl;
  package_detached = (refl, tt);
  package_leading = refl;
  services = (greeter-PlainService, tt);
}

generate_file-balanced_example :
    ((length greeter_file.services ≡ 0)
      × (generate_file names true (codes "1.0") protoc greeter_file ≡ none))
    ⊎ ((lines : List Bytes) × (generate_file names true (codes "1.0") protoc greeter_file
          ≡ some lines)
        × (scan_lines 0 lines ≡ some 0))
unfolding plain
generate_file-balanced_example =
    generate_file-balanced names names-PlainIdents true (codes "1.0") protoc greeter_file refl refl
      greeter_file-PlainFile

gen_service-declared_example :
    HasLine
      (registration (codes "Greeter") (method (codes "SayHello") true))
      (gen_service names true greeter)
    × HasLine
        (constant (codes "Greeter") (codes "helloworld.Greeter") (method (codes "SayHello") true))
        (gen_service names true greeter)
    × HasLine
        (declaration (codes "Greeter") (method (codes "SayHello") true))
        (gen_service names true greeter)
gen_service-declared_example =
    gen_service-declared names true greeter (method (codes "SayHello") false ∷ []) []
      (method (codes "SayHello") true) refl refl

-- the client's method of a unary call
hello_client : gen_client_method names (method (codes "SayHello") false) 0 ≡ (
    codes
      "func (c *greeterMqtClient) SayHello(ctx context.Context, topic string, in *Req, opts ...mqtt.CallOption) (*Reply, error){"
    ∷ codes "out := new(Reply)"
    ∷ codes "err := c.cc.Invoke(ctx, Greeter_SayHello_Mqt_FullMethodName, topic, in, out, opts...)"
    ∷ codes "if err != nil { return nil, err }"
    ∷ codes "return out, nil"
    ∷ codes "}"
    ∷ []
    ∷ [])
unfolding gen_client_method signature unary_call unexport
hello_client = refl
