-- ===== src/Stubs/ServiceText.antt =====
-- genService, generateFileContent, generateFile, genServiceDesc and protocVersion of
-- cmd/protoc-gen-go-mqt/mqt.go: the lines of a service and of a file. Marks for tools
-- (`g.Annotate`) print nothing.
use kratos_transport_rpc.Prelude.{
  ℕ, Bool, true, false, List, [], ◌∷◌, ◌++◌, joined, Bytes, if◌then◌else◌,
}
use kratos_transport_rpc.Prelude.Text.{codes, contains}
use kratos_transport_rpc.Stubs.{
  Method, Qualify, unexport, if_deprecated, deprecation_comment, format_full_method_symbol,
  gen_full_methods, client_methods,
}
use kratos_transport_rpc.Stubs.ClientText.{client_struct, signature, gen_client_method}
use kratos_transport_rpc.Stubs.ServerText.{
  handler_name, method_signature, gen_server_method, unimplemented_type,
}

pub record Service : Type 0 where
  pub go_name : Bytes
  pub full_name : Bytes
  pub deprecated : Bool
  pub methods : List Method

abbrev pub if_deprecated_note : Bool → List Bytes
if_deprecated_note true = codes "//" ∷ deprecation_comment ∷ []
if_deprecated_note false = []

abbrev pub client_name : Service → Bytes
client_name s = s.go_name ++ codes "MqtClient"

abbrev pub server_type : Service → Bytes
server_type s = s.go_name ++ codes "MqtServer"

module _ (q : Qualify) where
  -- the methods of an interface, with their comments
  unfoldable pub interface_methods : (Method → Bytes) → List Method → List Bytes
  interface_methods sign [] = []
  interface_methods sign (m ∷ ms) =
      if_deprecated m.deprecated ++ ((m.leading ++ sign m) ∷ interface_methods sign ms)

  unfoldable pub client_interface : Service → List Bytes
  unfolding interface_methods
  client_interface s =
      joined (
        codes "// "
        ∷ client_name s
        ∷ codes " is the client API for "
        ∷ s.go_name
        ∷ codes " service."
        ∷ [])
      ∷ codes "//"
      ∷ (if_deprecated_note s.deprecated
          ++ (joined (codes "type " ∷ client_name s ∷ codes " interface {" ∷ [])
              ∷ (interface_methods (signature q) s.methods ++ (codes "}" ∷ [] ∷ []))))

  -- `New` of the client
  unfoldable pub new_client : Service → List Bytes
  unfolding unexport
  new_client s =
      if_deprecated s.deprecated
      ++ (joined (
            codes "func New"
            ∷ client_name s
            ∷ codes " (cc *"
            ∷ q.mqtt (codes "Client")
            ∷ codes ") "
            ∷ client_name s
            ∷ codes " {"
            ∷ [])
          ∷ joined (codes "return &" ∷ unexport (client_name s) ∷ codes "{cc}" ∷ [])
          ∷ codes "}"
          ∷ []
          ∷ [])

  unfoldable pub client_texts : List (Method × ℕ) → List Bytes
  client_texts [] = []
  client_texts ((m, index) ∷ ms) = gen_client_method q m index ++ client_texts ms

  unfoldable pub server_interface : Bool → Service → List Bytes
  unfolding interface_methods
  server_interface required s =
      joined (
        codes "// "
        ∷ server_type s
        ∷ codes " is the server API for "
        ∷ s.go_name
        ∷ codes " service."
        ∷ [])
      ∷ joined (
          codes "// All implementations "
          ∷ (if required then codes "must" else codes "should")
          ∷ codes " embed Unimplemented"
          ∷ server_type s
          ∷ [])
      ∷ codes "// for forward compatibility"
      ∷ (if_deprecated_note s.deprecated
          ++ (joined (codes "type " ∷ server_type s ∷ codes " interface {" ∷ [])
              ∷ (interface_methods (method_signature q) s.methods
                  ++ ((if required
                        then joined
                            (codes "mustEmbedUnimplemented" ∷ server_type s ∷ codes "()" ∷ [])
                          ∷ []
                        else [])
                      ++ (codes "}" ∷ [] ∷ [])))))

  unfoldable pub unsafe_interface : Service → List Bytes
  unsafe_interface s =
      joined (
        codes "// Unsafe"
        ∷ server_type s
        ∷ codes " may be embedded to opt out of forward compatibility for this service."
        ∷ [])
      ∷ joined (
          codes "// Use of this interface is not recommended, as added methods to "
          ∷ server_type s
          ∷ codes " will"
          ∷ [])
      ∷ codes "// result in compilation errors."
      ∷ joined (codes "type Unsafe" ∷ server_type s ∷ codes " interface {" ∷ [])
      ∷ joined (codes "mustEmbedUnimplemented" ∷ server_type s ∷ codes "()" ∷ [])
      ∷ codes "}"
      ∷ []

  unfoldable pub register_methods : Service → List Method → List Bytes
  unfolding format_full_method_symbol handler_name
  register_methods s [] = []
  register_methods s (m ∷ ms) =
      joined (
        codes "mqtt.REQ(r, "
        ∷ format_full_method_symbol s.go_name m
        ∷ codes ", "
        ∷ m.input
        ∷ codes "{}, "
        ∷ handler_name s.go_name m
        ∷ codes "(srv))"
        ∷ [])
      ∷ register_methods s ms

  unfoldable pub register : Service → List Bytes
  unfolding contains
  register s =
      if_deprecated s.deprecated
      ++ (joined (
            codes "func Register"
            ∷ s.go_name
            ∷ codes "MqtServer(s *"
            ∷ q.mqtt (codes "Server")
            ∷ codes ", topic string, srv "
            ∷ server_type s
            ∷ codes ") {"
            ∷ [])
          ∷ codes "r := s.Route(\"\")"
          ∷ (register_methods s s.methods
              ++ ((if contains s.go_name (codes "Upload")
                    then codes "r.RouteUpload()"
                    else codes "r.Route(topic)")
                  ∷ codes "}"
                  ∷ []
                  ∷ [])))

  -- `generateServerFunctions`
  unfoldable pub server_functions : Bytes → List Method → List Bytes
  server_functions server [] = []
  server_functions server (m ∷ ms) = gen_server_method q server m ++ server_functions server ms

  -- `genService`
  unfoldable pub gen_service : Bool → Service → List Bytes
  gen_service required s =
      gen_full_methods s.go_name s.full_name s.methods
      ++ (client_interface s
          ++ (client_struct q (client_name s)
              ++ (new_client s
                  ++ (client_texts (client_methods 0 0 s.methods)
                      ++ (server_interface required s
                          ++ (unimplemented_type q required (server_type s) s.methods
                              ++ (unsafe_interface s
                                  ++ (register s
                                      ++ server_functions (server_type s) s.methods))))))))

  unfoldable pub gen_services : Bool → List Service → List Bytes
  gen_services required [] = []
  gen_services required (s ∷ services) = gen_service required s ++ gen_services required services

  -- `generateFileContent`
  unfoldable pub file_content : Bool → List Service → List Bytes
  file_content required [] = []
  file_content required (s ∷ services) =
      codes "// This is a compile-time assertion to ensure that this generated file"
      ∷ codes "// is compatible with the mqtt package it is being compiled against."
      ∷ codes "// Requires gRPC-Go v1.32.0 or later."
      ∷ joined (codes "const _ = " ∷ q.mqtt (codes "SupportPackageIsVersion1") ∷ [])
      ∷ []
      ∷ gen_services required (s ∷ services)
