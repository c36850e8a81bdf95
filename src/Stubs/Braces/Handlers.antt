-- ===== src/Stubs/Braces/Handlers.antt =====
-- The lines of one method on the server's side, of genServerMethod and
-- generateUnimplementedServerType in cmd/protoc-gen-go-mqt/mqt.go: each closes the braces that it
-- opens.
use kratos_transport_rpc.Prelude.{
  ℕ, ◌≡◌, refl, Bool, true, false, ◌&&◌, ◌||◌, not, some, [], ◌∷◌, ◌++◌, append_assoc, Bytes,
  if◌then◌else◌,
}
use kratos_transport_rpc.Prelude.Text.{codes}
use kratos_transport_rpc.Stubs.{
  Method, Qualify, unexport, server_signature, server_args, join_comma,
}
use kratos_transport_rpc.Stubs.ServerText.{
  handler_name, unary_handler, server_stream_type, stream_handler, server_stream_types, server_send,
  server_recv, server_stream_methods, gen_server_method, method_signature, unimplemented_method,
}
use kratos_transport_rpc.Stubs.Braces.{
  scan, scan_lines, plain, scan_lines-append, scan-plain, scan-plain_end, scan-if, scan_lines-if,
  unexport-plain, if_same,
}
use kratos_transport_rpc.Stubs.Braces.Methods.{PlainMethod, PlainIdents}

module _ (q : Qualify) (p : PlainIdents q) (m : Method) (h : PlainMethod m) (d : ℕ) where
  unary_handler_eq :
      (server : Bytes) → plain server ≡ true → scan_lines d (unary_handler q server m) ≡ some d
  unfolding scan_lines scan unary_handler handler_name
  unary_handler_eq server server_plain = simp (
    scan-plain m.input h.input,
    scan-plain m.parent h.parent,
    scan-plain m.go_name h.go_name,
    scan-plain server server_plain,
    scan-plain (q.context (codes "Context")) p.context,
    append_assoc,
  )

  stream_handler_eq : scan_lines d (stream_handler q m) ≡ some d
  unfolding scan_lines scan stream_handler handler_name server_stream_type
  stream_handler_eq = simp (
    scan-plain m.input h.input,
    scan-plain m.parent h.parent,
    scan-plain m.go_name h.go_name,
    scan-plain (unexport m.parent) (unexport-plain m.parent h.parent),
    scan-plain (q.mqtt (codes "ServerStream")) p.server_stream,
    scan_lines-append,
    scan_lines-if,
    if_same,
    append_assoc,
  )

  server_stream_types_eq : scan_lines d (server_stream_types q m) ≡ some d
  unfolding scan_lines scan server_stream_types server_stream_type
  server_stream_types_eq = simp (
    scan-plain m.output h.output,
    scan-plain m.input h.input,
    scan-plain m.parent h.parent,
    scan-plain m.go_name h.go_name,
    scan-plain (unexport m.parent) (unexport-plain m.parent h.parent),
    scan-plain_end (q.mqtt (codes "ServerStream")) p.server_stream,
    scan_lines-append,
    scan_lines-if,
    if_same,
    append_assoc,
  )

  server_send_eq : (name : Bytes) → plain name ≡ true → scan_lines d (server_send q name m) ≡ some d
  unfolding scan_lines scan server_send server_stream_type
  server_send_eq name name_plain = simp (
    scan-plain m.output h.output,
    scan-plain m.go_name h.go_name,
    scan-plain (unexport m.parent) (unexport-plain m.parent h.parent),
    scan-plain name name_plain,
    append_assoc,
  )

  server_recv_eq : scan_lines d (server_recv q m) ≡ some d
  unfolding scan_lines scan server_recv server_stream_type
  server_recv_eq = simp (
    scan-plain m.input h.input,
    scan-plain m.go_name h.go_name,
    scan-plain (unexport m.parent) (unexport-plain m.parent h.parent),
    append_assoc,
  )

  server_stream_methods_eq : scan_lines d (server_stream_methods q m) ≡ some d
  unfolding server_stream_methods scan_lines plain
  server_stream_methods_eq = simp (
    scan_lines-append,
    scan_lines-if,
    server_send_eq (codes "Send") refl,
    server_send_eq (codes "SendAndClose") refl,
    server_recv_eq,
    if_same,
  )

  pub gen_server_method_eq :
      (server : Bytes) → plain server ≡ true → scan_lines d (gen_server_method q server m) ≡ some d
  unfolding scan_lines gen_server_method
  gen_server_method_eq server server_plain = simp (
    scan_lines-append,
    scan_lines-if,
    unary_handler_eq server server_plain,
    stream_handler_eq,
    server_stream_types_eq,
    server_stream_methods_eq,
    if_same,
  )

  -- the arguments of a signature, by the kinds of streams
  args_eq :
      (client_side server_side : Bool) (rest : Bytes)
      → scan d (
          join_comma (
            (if not client_side && not server_side then q.context (codes "Context") ∷ [] else [])
            ++ ((if not client_side then (codes "*" ++ m.input) ∷ [] else [])
                ++ (if client_side || server_side
                    then (m.parent ++ (codes "_" ++ (m.go_name ++ codes "MqtServer"))) ∷ []
                    else [])))
          ++ rest)
        ≡ scan d rest
  unfolding scan join_comma
  args_eq true true rest =
      simp (scan-plain m.parent h.parent, scan-plain m.go_name h.go_name, append_assoc)
  args_eq true false rest =
      simp (scan-plain m.parent h.parent, scan-plain m.go_name h.go_name, append_assoc)
  args_eq false true rest = simp (
    scan-plain m.input h.input,
    scan-plain m.parent h.parent,
    scan-plain m.go_name h.go_name,
    append_assoc,
  )
  args_eq false false rest =
      simp (
        scan-plain (q.context (codes "Context")) p.context,
        scan-plain m.input h.input,
        append_assoc,
      )

  pub method_signature_eq : (rest : Bytes) → scan d (method_signature q m ++ rest) ≡ scan d rest
  unfolding scan method_signature server_signature server_args
  method_signature_eq rest = simp (
    scan-plain m.go_name h.go_name,
    args_eq m.streaming_client m.streaming_server,
    scan-plain m.output h.output,
    scan-if,
    if_same,
    append_assoc,
  )

  pub unimplemented_method_eq :
      (server : Bytes)
      → plain server ≡ true
      → scan_lines d (unimplemented_method q server m) ≡ some d
  unfolding scan_lines scan unimplemented_method
  unimplemented_method_eq server server_plain = simp (
    scan-plain server server_plain,
    method_signature_eq,
    scan-plain m.go_name h.go_name,
    scan-plain (q.errors (codes "New")) p.new_error,
    scan-if,
    if_same,
  )
