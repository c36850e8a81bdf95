-- ===== src/Stubs/Braces/Methods.antt =====
-- The lines of one method, of genClientMethod, genServerMethod and
-- generateUnimplementedServerType in cmd/protoc-gen-go-mqt/mqt.go: each closes the braces that it
-- opens.
use kratos_transport_rpc.Prelude.{
  ℕ, suc, ◌≡◌, refl, Bool, true, false, some, [], ◌∷◌, ◌++◌, append_assoc, joined, Bytes,
}
use kratos_transport_rpc.Prelude.Text.{codes}
use kratos_transport_rpc.Wire.{decimal}
use kratos_transport_rpc.Stubs.{
  Method, Qualify, unexport, if_deprecated, format_full_method_symbol, client_signature,
}
use kratos_transport_rpc.Stubs.ClientText.{
  signature, unary_call, stream_type, stream_call, stream_types, send_method, recv_method,
  close_and_recv_method, stream_methods, gen_client_method,
}
use kratos_transport_rpc.Stubs.Braces.{
  scan, scan_lines, plain, scan_lines-append, scan-plain, scan-plain_end, scan-if, scan_lines-if,
  unexport-plain, decimal-plain, if_same,
}

pub record PlainMethod (m : Method) : Type 0 where
  pub go_name : plain m.go_name ≡ true
  pub name : plain m.name ≡ true
  pub parent : plain m.parent ≡ true
  pub input : plain m.input ≡ true
  pub output : plain m.output ≡ true
  pub leading : plain m.leading ≡ true

-- the identifiers that the generator asks for
pub record PlainIdents (q : Qualify) : Type 0 where
  pub context : plain (q.context (codes "Context")) ≡ true
  pub call_option : plain (q.mqtt (codes "CallOption")) ≡ true
  pub client : plain (q.mqtt (codes "Client")) ≡ true
  pub server : plain (q.mqtt (codes "Server")) ≡ true
  pub client_stream : plain (q.mqtt (codes "ClientStream")) ≡ true
  pub server_stream : plain (q.mqtt (codes "ServerStream")) ≡ true
  pub package_version : plain (q.mqtt (codes "SupportPackageIsVersion1")) ≡ true
  pub new_error : plain (q.errors (codes "New")) ≡ true

pub deprecated_eq : (d : ℕ) (b : Bool) → scan_lines d (if_deprecated b) ≡ some d
unfolding scan_lines scan
deprecated_eq d true = refl
deprecated_eq d false = refl

module _ (q : Qualify) (p : PlainIdents q) (m : Method) (h : PlainMethod m) (d : ℕ) where
  unary_call_eq : scan_lines (suc d) (unary_call q m) ≡ some d
  unfolding scan_lines scan unary_call format_full_method_symbol
  unary_call_eq = simp (
    scan-plain m.output h.output,
    scan-plain m.parent h.parent,
    scan-plain m.go_name h.go_name,
    append_assoc,
  )

  stream_call_eq : (index : ℕ) → scan_lines (suc d) (stream_call q m index) ≡ some d
  unfolding scan_lines scan stream_call stream_type format_full_method_symbol
  stream_call_eq index = simp (
    scan-plain m.parent h.parent,
    scan-plain m.go_name h.go_name,
    scan-plain (unexport m.parent) (unexport-plain m.parent h.parent),
    scan-plain (decimal index) (decimal-plain index),
    scan_lines-append,
    scan_lines-if,
    if_same,
    append_assoc,
  )

  stream_types_eq : scan_lines d (stream_types q m) ≡ some d
  unfolding scan_lines scan stream_types stream_type
  stream_types_eq = simp (
    scan-plain m.output h.output,
    scan-plain m.input h.input,
    scan-plain m.parent h.parent,
    scan-plain m.go_name h.go_name,
    scan-plain (unexport m.parent) (unexport-plain m.parent h.parent),
    scan-plain_end (q.mqtt (codes "ClientStream")) p.client_stream,
    scan_lines-append,
    scan_lines-if,
    if_same,
    append_assoc,
  )

  send_eq : scan_lines d (send_method q m) ≡ some d
  unfolding scan_lines scan send_method stream_type
  send_eq = simp (
    scan-plain m.input h.input,
    scan-plain m.go_name h.go_name,
    scan-plain (unexport m.parent) (unexport-plain m.parent h.parent),
    append_assoc,
  )

  recv_eq : scan_lines d (recv_method q m) ≡ some d
  unfolding scan_lines scan recv_method stream_type
  recv_eq = simp (
    scan-plain m.output h.output,
    scan-plain m.go_name h.go_name,
    scan-plain (unexport m.parent) (unexport-plain m.parent h.parent),
    append_assoc,
  )

  close_and_recv_eq : scan_lines d (close_and_recv_method q m) ≡ some d
  unfolding scan_lines scan close_and_recv_method stream_type
  close_and_recv_eq = simp (
    scan-plain m.output h.output,
    scan-plain m.go_name h.go_name,
    scan-plain (unexport m.parent) (unexport-plain m.parent h.parent),
    append_assoc,
  )

  stream_methods_eq : scan_lines d (stream_methods q m) ≡ some d
  unfolding stream_methods scan_lines
  stream_methods_eq =
      simp (scan_lines-append, scan_lines-if, send_eq, recv_eq, close_and_recv_eq, if_same)

  -- the line of a client's method, up to its brace
  pub signature_eq : (rest : Bytes) → scan d (signature q m ++ rest) ≡ scan d rest
  unfolding scan signature client_signature
  signature_eq rest = simp (
    scan-plain m.output h.output,
    scan-plain m.input h.input,
    scan-plain m.parent h.parent,
    scan-plain m.go_name h.go_name,
    scan-plain (q.context (codes "Context")) p.context,
    scan-plain (q.mqtt (codes "CallOption")) p.call_option,
    scan-if,
    if_same,
    append_assoc,
  )

  head_eq :
      scan d (
        joined (
          codes "func (c *"
          ∷ unexport m.parent
          ∷ codes "MqtClient) "
          ∷ signature q m
          ∷ codes "{"
          ∷ []))
      ≡ some (suc d)
  unfolding scan
  head_eq = simp (scan-plain (unexport m.parent) (unexport-plain m.parent h.parent), signature_eq)

module _ (q : Qualify) (p : PlainIdents q) (m : Method) (h : PlainMethod m) (d : ℕ) where
  pub gen_client_method_eq : (index : ℕ) → scan_lines d (gen_client_method q m index) ≡ some d
  unfolding scan_lines gen_client_method
  gen_client_method_eq index = simp (
    scan_lines-append,
    deprecated_eq d,
    head_eq q p m h,
    scan_lines-if,
    unary_call_eq q p m h,
    stream_call_eq q p m h,
    stream_types_eq q p m h,
    stream_methods_eq q p m h,
    if_same,
  )
