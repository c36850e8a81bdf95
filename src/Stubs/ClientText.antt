-- ===== src/Stubs/ClientText.antt =====
-- genClientMethod, genFullMethods' neighbours generateClientStruct and
-- generateNewClientDefinitions of cmd/protoc-gen-go-mqt/mqt.go: the lines of a client. A line is
-- what one call of `g.P` prints.
use kratos_transport_rpc.Prelude.{ℕ, not, List, [], ◌∷◌, ◌++◌, joined, Bytes, if◌then◌else◌}
use kratos_transport_rpc.Prelude.Text.{codes}
use kratos_transport_rpc.Wire.{decimal}
use kratos_transport_rpc.Stubs.{
  Method, Qualify, unexport, if_deprecated, format_full_method_symbol, client_signature, is_unary,
}

module _ (q : Qualify) where
  -- `generateClientStruct`
  unfoldable pub client_struct : Bytes → List Bytes
  unfolding unexport
  client_struct client_name =
      joined (codes "type " ∷ unexport client_name ∷ codes " struct {" ∷ [])
      ∷ joined (codes "cc *" ∷ q.mqtt (codes "Client") ∷ [])
      ∷ codes "}"
      ∷ []
      ∷ []

  unfoldable pub signature : Method → Bytes
  unfolding client_signature
  signature m = client_signature (q.context (codes "Context")) (q.mqtt (codes "CallOption")) m

  -- the body of a unary method
  unfoldable pub unary_call : Method → List Bytes
  unfolding format_full_method_symbol
  unary_call m =
      joined (codes "out := new(" ∷ m.output ∷ codes ")" ∷ [])
      ∷ joined (
          codes "err := c.cc.Invoke(ctx, "
          ∷ format_full_method_symbol m.parent m
          ∷ codes ", topic, in, out, opts...)"
          ∷ [])
      ∷ codes "if err != nil { return nil, err }"
      ∷ codes "return out, nil"
      ∷ codes "}"
      ∷ []
      ∷ []

  unfoldable pub stream_type : Method → Bytes
  unfolding unexport
  stream_type m = unexport m.parent ++ (m.go_name ++ codes "MqtClient")

  -- the body of a streaming method
  unfoldable pub stream_call : Method → ℕ → List Bytes
  unfolding format_full_method_symbol stream_type decimal
  stream_call m index =
      joined (
        codes "stream, err := c.cc.NewStream(ctx, &"
        ∷ m.parent
        ∷ codes "_ServiceDesc"
        ∷ codes ".Streams["
        ∷ decimal index
        ∷ codes "], "
        ∷ format_full_method_symbol m.parent m
        ∷ codes ", opts...)"
        ∷ [])
      ∷ codes "if err != nil { return nil, err }"
      ∷ joined (codes "x := &" ∷ stream_type m ∷ codes "{stream}" ∷ [])
      ∷ ((if not m.streaming_client
            then codes "if err := x.ClientStream.SendMsg(in); err != nil { return nil, err }"
              ∷ codes "if err := x.ClientStream.CloseSend(); err != nil { return nil, err }"
              ∷ []
            else [])
          ++ (codes "return x, nil" ∷ codes "}" ∷ [] ∷ []))

  -- the interface and the type of a stream
  unfoldable pub stream_types : Method → List Bytes
  unfolding stream_type
  stream_types m =
      joined (codes "type " ∷ m.parent ∷ codes "_" ∷ m.go_name ∷ codes "MqtClient interface {" ∷ [])
      ∷ ((if m.streaming_client
            then joined (codes "Send(*" ∷ m.input ∷ codes ") error" ∷ []) ∷ []
            else [])
          ++ ((if m.streaming_server
                then joined (codes "Recv() (*" ∷ m.output ∷ codes ", error)" ∷ []) ∷ []
                else [])
              ++ ((if not m.streaming_server
                    then joined (codes "CloseAndRecv() (*" ∷ m.output ∷ codes ", error)" ∷ []) ∷ []
                    else [])
                  ++ (q.mqtt (codes "ClientStream")
                      ∷ codes "}"
                      ∷ []
                      ∷ joined (codes "type " ∷ stream_type m ∷ codes " struct {" ∷ [])
                      ∷ q.mqtt (codes "ClientStream")
                      ∷ codes "}"
                      ∷ []
                      ∷ []))))

  unfoldable pub send_method : Method → List Bytes
  unfolding stream_type
  send_method m =
      joined
        (codes "func (x *" ∷ stream_type m ∷ codes ") Send(m *" ∷ m.input ∷ codes ") error {" ∷ [])
      ∷ codes "return x.ClientStream.SendMsg(m)"
      ∷ codes "}"
      ∷ []
      ∷ []

  unfoldable pub recv_method : Method → List Bytes
  unfolding stream_type
  recv_method m =
      joined (
        codes "func (x *"
        ∷ stream_type m
        ∷ codes ") Recv() (*"
        ∷ m.output
        ∷ codes ", error) {"
        ∷ [])
      ∷ joined (codes "m := new(" ∷ m.output ∷ codes ")" ∷ [])
      ∷ codes "if err := x.ClientStream.RecvMsg(m); err != nil { return nil, err }"
      ∷ codes "return m, nil"
      ∷ codes "}"
      ∷ []
      ∷ []

  unfoldable pub close_and_recv_method : Method → List Bytes
  unfolding stream_type
  close_and_recv_method m =
      joined (
        codes "func (x *"
        ∷ stream_type m
        ∷ codes ") CloseAndRecv() (*"
        ∷ m.output
        ∷ codes ", error) {"
        ∷ [])
      ∷ codes "if err := x.ClientStream.CloseSend(); err != nil { return nil, err }"
      ∷ joined (codes "m := new(" ∷ m.output ∷ codes ")" ∷ [])
      ∷ codes "if err := x.ClientStream.RecvMsg(m); err != nil { return nil, err }"
      ∷ codes "return m, nil"
      ∷ codes "}"
      ∷ []
      ∷ []

  -- the methods of a stream's type
  unfoldable pub stream_methods : Method → List Bytes
  unfolding send_method recv_method close_and_recv_method
  stream_methods m =
      (if m.streaming_client then send_method m else [])
      ++ ((if m.streaming_server then recv_method m else [])
          ++ (if not m.streaming_server then close_and_recv_method m else []))

  -- `genClientMethod`
  unfoldable pub gen_client_method : Method → ℕ → List Bytes
  gen_client_method m index =
      if_deprecated m.deprecated
      ++ (joined (
            codes "func (c *"
            ∷ unexport m.parent
            ∷ codes "MqtClient) "
            ∷ signature m
            ∷ codes "{"
            ∷ [])
          ∷ (if is_unary m
              then unary_call m
              else stream_call m index ++ (stream_types m ++ stream_methods m)))
