-- ===== src/Stubs/ServerText.antt =====
-- genServerMethod and generateUnimplementedServerType of cmd/protoc-gen-go-mqt/mqt.go: the lines
-- of the handlers, and of the type that implements no method.
use kratos_transport_rpc.Prelude.{Bool, not, List, [], ◌∷◌, ◌++◌, joined, Bytes, if◌then◌else◌}
use kratos_transport_rpc.Prelude.Text.{codes}
use kratos_transport_rpc.Stubs.{Method, Qualify, unexport, server_signature, is_unary}

-- `hname`
unfoldable pub handler_name : Bytes → Method → Bytes
handler_name service m =
    codes "_" ++ (service ++ (codes "_" ++ (m.go_name ++ codes "_Mqt_Handler")))

module _ (q : Qualify) where
  abbrev closure : List Bytes
  closure =
      codes "func(ctx "
      ∷ q.context (codes "Context")
      ∷ codes ", req interface{}) (interface{}, error) {"
      ∷ []

  unfoldable pub unary_handler : Bytes → Method → List Bytes
  unfolding handler_name
  unary_handler server_type m =
      joined (
        codes "func "
        ∷ handler_name m.parent m
        ∷ codes "(srv "
        ∷ server_type
        ∷ codes ") "
        ∷ closure)
      ∷ joined (codes "return " ∷ closure)
      ∷ joined (codes "handler := " ∷ closure)
      ∷ joined (codes "return srv." ∷ m.go_name ∷ codes "(ctx, req.(*" ∷ m.input ∷ codes "))" ∷ [])
      ∷ codes "}"
      ∷ codes "return handler(ctx, req)"
      ∷ codes "}"
      ∷ codes "}"
      ∷ []
      ∷ []

  unfoldable pub server_stream_type : Method → Bytes
  unfolding unexport
  server_stream_type m = unexport m.parent ++ (m.go_name ++ codes "MqtServer")

  unfoldable pub stream_handler : Method → List Bytes
  unfolding handler_name server_stream_type
  stream_handler m =
      joined (
        codes "func "
        ∷ handler_name m.parent m
        ∷ codes "(srv interface{}, stream "
        ∷ q.mqtt (codes "ServerStream")
        ∷ codes ") error {"
        ∷ [])
      ∷ ((if not m.streaming_client
            then joined (codes "m := new(" ∷ m.input ∷ codes ")" ∷ [])
              ∷ codes "if err := stream.RecvMsg(m); err != nil { return err }"
              ∷ joined (
                  codes "return srv.("
                  ∷ m.parent
                  ∷ codes "MqtServer)."
                  ∷ m.go_name
                  ∷ codes "(m, &"
                  ∷ server_stream_type m
                  ∷ codes "{stream})"
                  ∷ [])
              ∷ []
            else joined (
                codes "return srv.("
                ∷ m.parent
                ∷ codes "MqtServer)."
                ∷ m.go_name
                ∷ codes "(&"
                ∷ server_stream_type m
                ∷ codes "{stream})"
                ∷ [])
              ∷ [])
          ++ (codes "}" ∷ [] ∷ []))

  unfoldable pub server_stream_types : Method → List Bytes
  unfolding server_stream_type
  server_stream_types m =
      joined (codes "type " ∷ m.parent ∷ codes "_" ∷ m.go_name ∷ codes "MqtServer interface {" ∷ [])
      ∷ ((if m.streaming_server
            then joined (codes "Send(*" ∷ m.output ∷ codes ") error" ∷ []) ∷ []
            else [])
          ++ ((if not m.streaming_server
                then joined (codes "SendAndClose(*" ∷ m.output ∷ codes ") error" ∷ []) ∷ []
                else [])
              ++ ((if m.streaming_client
                    then joined (codes "Recv() (*" ∷ m.input ∷ codes ", error)" ∷ []) ∷ []
                    else [])
                  ++ (q.mqtt (codes "ServerStream")
                      ∷ codes "}"
                      ∷ []
                      ∷ joined (codes "type " ∷ server_stream_type m ∷ codes " struct {" ∷ [])
                      ∷ q.mqtt (codes "ServerStream")
                      ∷ codes "}"
                      ∷ []
                      ∷ []))))

  -- `Send`, or `SendAndClose`, with its name
  unfoldable pub server_send : Bytes → Method → List Bytes
  unfolding server_stream_type
  server_send name m =
      joined (
        codes "func (x *"
        ∷ server_stream_type m
        ∷ codes ") "
        ∷ name
        ∷ codes "(m *"
        ∷ m.output
        ∷ codes ") error {"
        ∷ [])
      ∷ codes "return x.ServerStream.SendMsg(m)"
      ∷ codes "}"
      ∷ []
      ∷ []

  unfoldable pub server_recv : Method → List Bytes
  unfolding server_stream_type
  server_recv m =
      joined (
        codes "func (x *"
        ∷ server_stream_type m
        ∷ codes ") Recv() (*"
        ∷ m.input
        ∷ codes ", error) {"
        ∷ [])
      ∷ joined (codes "m := new(" ∷ m.input ∷ codes ")" ∷ [])
      ∷ codes "if err := x.ServerStream.RecvMsg(m); err != nil { return nil, err }"
      ∷ codes "return m, nil"
      ∷ codes "}"
      ∷ []
      ∷ []

  unfoldable pub server_stream_methods : Method → List Bytes
  unfolding server_send server_recv
  server_stream_methods m =
      (if m.streaming_server then server_send (codes "Send") m else [])
      ++ ((if not m.streaming_server then server_send (codes "SendAndClose") m else [])
          ++ (if m.streaming_client then server_recv m else []))

  -- `genServerMethod`, with the name as it is
  unfoldable pub gen_server_method : Bytes → Method → List Bytes
  gen_server_method server_type m =
      if is_unary m
      then unary_handler server_type m
      else stream_handler m ++ (server_stream_types m ++ server_stream_methods m)

  unfoldable pub method_signature : Method → Bytes
  unfolding server_signature
  method_signature m = server_signature (q.context (codes "Context")) m

  -- a method of the type that implements none
  unfoldable pub unimplemented_method : Bytes → Method → List Bytes
  unimplemented_method server_type m =
      joined (
        codes "func (Unimplemented"
        ∷ server_type
        ∷ codes ") "
        ∷ method_signature m
        ∷ codes "{"
        ∷ [])
      ∷ joined (
          codes "return "
          ∷ (if is_unary m then codes "nil," else [])
          ∷ q.errors (codes "New")
          ∷ codes "(\"method "
          ∷ m.go_name
          ∷ codes " not implemented\")"
          ∷ [])
      ∷ codes "}"
      ∷ []

  unfoldable pub unimplemented_methods : Bytes → List Method → List Bytes
  unfolding unimplemented_method
  unimplemented_methods server_type [] = []
  unimplemented_methods server_type (m ∷ ms) =
      unimplemented_method server_type m ++ unimplemented_methods server_type ms

  -- `generateUnimplementedServerType`; the flag is that of the generator's command line
  unfoldable pub unimplemented_type : Bool → Bytes → List Method → List Bytes
  unfolding unimplemented_methods
  unimplemented_type required server_type ms =
      joined (
        codes "// Unimplemented"
        ∷ server_type
        ∷ codes " "
        ∷ (if required then codes "must" else codes "should")
        ∷ codes " be embedded to have forward compatible implementations."
        ∷ [])
      ∷ joined (codes "type Unimplemented" ∷ server_type ∷ codes " struct {" ∷ [])
      ∷ codes "}"
      ∷ []
      ∷ (unimplemented_methods server_type ms
          ++ ((if required
                then joined (
                    codes "func (Unimplemented"
                    ∷ server_type
                    ∷ codes ") mustEmbedUnimplemented"
                    ∷ server_type
                    ∷ codes "() {}"
                    ∷ [])
                  ∷ []
                else [])
              ++ ([] ∷ [])))
