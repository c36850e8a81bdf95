-- ===== src/Stubs/Braces/Members.antt =====
-- The lines for the methods of a service, in genService of cmd/protoc-gen-go-mqt/mqt.go: they close the
-- braces that they open.
use kratos_transport_rpc.Prelude.{
  ℕ, ◌+◌, ◌≡◌, refl, ap, sym, ◌∙◌, Bool, true, false, some, List, [], ◌∷◌, ◌++◌, append_assoc,
  append-nil, Bytes,
}
use kratos_transport_rpc.Stubs.{
  Method, Qualify, format_full_method_symbol, full_methods, client_methods, client_method, is_unary,
}
use kratos_transport_rpc.Stubs.ServerText.{unimplemented_methods, unimplemented_type}
use kratos_transport_rpc.Stubs.ServiceText.{
  Service, if_deprecated_note, interface_methods, client_texts, server_functions,
}
use kratos_transport_rpc.Stubs.Braces.{
  scan, scan_lines, plain, scan_lines-append, scan-plain, scan-plain_end, scan-if, scan_lines-if,
  if_same,
}
use kratos_transport_rpc.Stubs.Braces.Methods.{
  PlainMethod, PlainIdents, deprecated_eq, gen_client_method_eq,
}
use kratos_transport_rpc.Stubs.Braces.Handlers.{unimplemented_method_eq, gen_server_method_eq}

abbrev pub AllPlain : List Method → Type 0
AllPlain [] = Unit
AllPlain (m ∷ ms) = PlainMethod m × AllPlain ms

pub record PlainService (s : Service) : Type 0 where
  pub go_name : plain s.go_name ≡ true
  pub full_name : plain s.full_name ≡ true
  pub methods : AllPlain s.methods

pub note_eq : (d : ℕ) (b : Bool) → scan_lines d (if_deprecated_note b) ≡ some d
unfolding scan_lines scan
note_eq d true = refl
note_eq d false = refl

pub full_methods_eq :
    (service full_name : Bytes) (ms : List Method) (d : ℕ)
    → plain service ≡ true
    → plain full_name ≡ true
    → AllPlain ms
    → scan_lines d (full_methods service full_name ms) ≡ some d
unfolding scan_lines scan full_methods format_full_method_symbol
full_methods_eq service full_name [] d h k all = refl
full_methods_eq service full_name (m ∷ ms) d h k all = simp (
  scan-plain service h,
  scan-plain m.go_name all.0.go_name,
  scan-plain full_name k,
  scan-plain m.name all.0.name,
  append_assoc,
  full_methods_eq service full_name ms d h k all.1,
)

-- the methods of an interface, with what is printed for each
pub interface_methods_eq :
    (q : Qualify) (p : PlainIdents q) (sign : Method → Bytes) (ms : List Method) (d : ℕ)
    → ((m : Method) → PlainMethod m → (rest : Bytes) → scan d (sign m ++ rest) ≡ scan d rest)
    → AllPlain ms
    → scan_lines d (interface_methods q sign ms) ≡ some d
unfolding scan_lines interface_methods plain
interface_methods_eq q p sign [] d skips all = refl
interface_methods_eq q p sign (m ∷ ms) d skips all =
    let line : scan d (m.leading ++ sign m) ≡ some d =
      scan-plain m.leading all.0.leading d (sign m)
      ∙ ap (scan d) (sym (append-nil (sign m)))
      ∙ skips m all.0 []
      ∙ scan-plain_end [] refl d in
    simp (scan_lines-append, deprecated_eq d, line, interface_methods_eq q p sign ms d skips all.1)

pub client_texts_eq :
    (q : Qualify) (p : PlainIdents q) (i j : ℕ) (ms : List Method) (d : ℕ)
    → AllPlain ms
    → scan_lines d (client_texts q (client_methods i j ms)) ≡ some d
unfolding scan_lines client_texts client_methods
client_texts_eq q p i j [] d all = refl
client_texts_eq q p i j (m ∷ ms) d all =
    elim (is_unary m)
      as (λ b.
        scan_lines d (client_texts q (client_method b m i j (λ k l. client_methods k l ms)))
        ≡ some d) [
          | true ↦ simp (
            scan_lines-append,
            gen_client_method_eq q p m all.0,
            client_texts_eq q p (i + 1) j ms d all.1,
          )
          | false ↦ simp (
            scan_lines-append,
            gen_client_method_eq q p m all.0,
            client_texts_eq q p i (j + 1) ms d all.1,
          )
        ]

module _ (q : Qualify) (p : PlainIdents q) (server : Bytes) (h : plain server ≡ true) (d : ℕ) where
  pub server_functions_eq :
      (ms : List Method) → AllPlain ms → scan_lines d (server_functions q server ms) ≡ some d
  unfolding scan_lines server_functions
  server_functions_eq [] all = refl
  server_functions_eq (m ∷ ms) all =
      simp (
        scan_lines-append,
        gen_server_method_eq q p m all.0 d server h,
        server_functions_eq ms all.1,
      )

  pub unimplemented_methods_eq :
      (ms : List Method) → AllPlain ms → scan_lines d (unimplemented_methods q server ms) ≡ some d
  unfolding scan_lines unimplemented_methods
  unimplemented_methods_eq [] all = refl
  unimplemented_methods_eq (m ∷ ms) all = simp (
    scan_lines-append,
    unimplemented_method_eq q p m all.0 d server h,
    unimplemented_methods_eq ms all.1,
  )

  pub unimplemented_type_eq :
      (required : Bool) (ms : List Method)
      → AllPlain ms
      → scan_lines d (unimplemented_type q required server ms) ≡ some d
  unfolding scan_lines scan unimplemented_type
  unimplemented_type_eq required ms all = simp (
    scan-plain server h,
    scan-if,
    scan_lines-append,
    scan_lines-if,
    unimplemented_methods_eq ms all,
    if_same,
  )
