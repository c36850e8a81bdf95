-- ===== src/Stubs/Braces/Services.antt =====
-- The lines of a service and of a file, of genService and generateFileContent in
-- cmd/protoc-gen-go-mqt/mqt.go: they close the braces that they open.
use kratos_transport_rpc.Prelude.{ℕ, suc, ◌≡◌, refl, Bool, true, some, List, [], ◌∷◌, append_assoc}
use kratos_transport_rpc.Prelude.Text.{codes}
use kratos_transport_rpc.Stubs.{
  Method, Qualify, unexport, format_full_method_symbol, gen_full_methods,
}
use kratos_transport_rpc.Stubs.ClientText.{client_struct, signature}
use kratos_transport_rpc.Stubs.ServerText.{handler_name, method_signature}
use kratos_transport_rpc.Stubs.ServiceText.{
  Service, client_name, server_type, client_interface, new_client, server_interface,
  unsafe_interface, register_methods, register, gen_service, gen_services, file_content,
}
use kratos_transport_rpc.Stubs.Braces.{
  scan, scan_lines, plain, scan_lines-append, scan-plain, scan-if, scan-if_line, scan_lines-if,
  plain-append, unexport-plain, if_same,
}
use kratos_transport_rpc.Stubs.Braces.Methods.{PlainIdents, deprecated_eq, signature_eq}
use kratos_transport_rpc.Stubs.Braces.Handlers.{method_signature_eq}
use kratos_transport_rpc.Stubs.Braces.Members.{
  AllPlain, PlainService, note_eq, full_methods_eq, interface_methods_eq, client_texts_eq,
  server_functions_eq, unimplemented_type_eq,
}

module _ (q : Qualify) (p : PlainIdents q) (s : Service) (h : PlainService s) (d : ℕ) where
  client_plain : plain (client_name s) ≡ true
  unfolding plain
  client_plain = plain-append s.go_name (codes "MqtClient") h.go_name refl

  server_plain : plain (server_type s) ≡ true
  unfolding plain
  server_plain = plain-append s.go_name (codes "MqtServer") h.go_name refl

  client_interface_eq : scan_lines d (client_interface q s) ≡ some d
  unfolding scan_lines scan client_interface
  client_interface_eq = simp (
    scan-plain s.go_name h.go_name,
    note_eq,
    scan_lines-append,
    interface_methods_eq q p (signature q) s.methods (suc d)
        (λ m k rest. signature_eq q p m k (suc d) rest) h.methods,
    append_assoc,
  )

  client_struct_eq : scan_lines d (client_struct q (client_name s)) ≡ some d
  unfolding scan_lines scan client_struct
  client_struct_eq = simp (
    scan-plain (unexport (client_name s)) (unexport-plain (client_name s) client_plain),
    scan-plain (q.mqtt (codes "Client")) p.client,
  )

  new_client_eq : scan_lines d (new_client q s) ≡ some d
  unfolding scan_lines scan new_client
  new_client_eq = simp (
    deprecated_eq,
    scan_lines-append,
    scan-plain s.go_name h.go_name,
    scan-plain (unexport (client_name s)) (unexport-plain (client_name s) client_plain),
    scan-plain (q.mqtt (codes "Client")) p.client,
    append_assoc,
  )

  server_interface_eq : (required : Bool) → scan_lines d (server_interface q required s) ≡ some d
  unfolding scan_lines scan server_interface
  server_interface_eq required = simp (
    scan-plain s.go_name h.go_name,
    note_eq,
    scan-if,
    scan_lines-append,
    scan_lines-if,
    interface_methods_eq q p (method_signature q) s.methods (suc d)
        (λ m k rest. method_signature_eq q p m k (suc d) rest) h.methods,
    if_same,
    append_assoc,
  )

  unsafe_interface_eq : scan_lines d (unsafe_interface q s) ≡ some d
  unfolding scan_lines scan unsafe_interface
  unsafe_interface_eq = simp (scan-plain s.go_name h.go_name, append_assoc)

  register_methods_eq :
      (ms : List Method) → AllPlain ms → scan_lines d (register_methods q s ms) ≡ some d
  unfolding scan_lines scan register_methods format_full_method_symbol handler_name
  register_methods_eq [] all = refl
  register_methods_eq (m ∷ ms) all = simp (
    scan-plain s.go_name h.go_name,
    scan-plain m.go_name all.0.go_name,
    scan-plain m.input all.0.input,
    register_methods_eq ms all.1,
    append_assoc,
  )

module _ (q : Qualify) (p : PlainIdents q) (s : Service) (h : PlainService s) (d : ℕ) where
  register_eq : scan_lines d (register q s) ≡ some d
  unfolding scan_lines scan register
  register_eq = simp (
    deprecated_eq,
    scan_lines-append,
    scan-plain s.go_name h.go_name,
    scan-plain (q.mqtt (codes "Server")) p.server,
    register_methods_eq q p s h (suc d) s.methods h.methods,
    scan-if_line,
    if_same,
    append_assoc,
  )

  full_eq : scan_lines d (gen_full_methods s.go_name s.full_name s.methods) ≡ some d
  unfolding scan_lines scan gen_full_methods
  full_eq = full_methods_eq s.go_name s.full_name s.methods d h.go_name h.full_name h.methods

  gen_service_eq : (required : Bool) → scan_lines d (gen_service q required s) ≡ some d
  unfolding scan_lines gen_service
  gen_service_eq required = simp (
    scan_lines-append,
    full_eq,
    client_interface_eq q p s h,
    client_struct_eq q p s h,
    new_client_eq q p s h,
    client_texts_eq q p 0 0 s.methods d h.methods,
    server_interface_eq q p s h d required,
    unimplemented_type_eq q p (server_type s) (server_plain q p s h d) d required s.methods
        h.methods,
    unsafe_interface_eq q p s h,
    register_eq,
    server_functions_eq q p (server_type s) (server_plain q p s h d) d s.methods h.methods,
  )

abbrev pub AllServices : List Service → Type 0
AllServices [] = Unit
AllServices (s ∷ services) = PlainService s × AllServices services

module _ (q : Qualify) (p : PlainIdents q) (required : Bool) where
  gen_services_eq :
      (services : List Service) (d : ℕ)
      → AllServices services
      → scan_lines d (gen_services q required services) ≡ some d
  unfolding scan_lines gen_services
  gen_services_eq [] d all = refl
  gen_services_eq (s ∷ services) d all =
      simp
        (scan_lines-append, gen_service_eq q p s all.0 d required, gen_services_eq services d all.1)

  -- The braces of a generated file balance: read from its first line on, no brace is closed that
  -- is not open, and at the end none is open, for every list of services with methods of all
  -- kinds of streams. The names, comments and identifiers that the generator is given have no
  -- braces themselves.
  pub file_content-balanced :
      (services : List Service)
      → AllServices services
      → scan_lines 0 (file_content q required services) ≡ some 0
  unfolding scan_lines scan file_content
  file_content-balanced [] all = refl
  file_content-balanced (s ∷ services) all = simp (
    scan-plain (q.mqtt (codes "SupportPackageIsVersion1")) p.package_version,
    gen_services_eq (s ∷ services) 0 all,
  )
