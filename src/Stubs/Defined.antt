-- ===== src/Stubs/Defined.antt =====
-- The names that the registration of a service uses, in genService of
-- cmd/protoc-gen-go-mqt/mqt.go, are declared in the same file.
use kratos_transport_rpc.Prelude.{
  ◌≡◌, ap, sym, subst, ◌∙◌, ◌⊎◌, inl, inr, Bool, true, false, List, [], ◌∷◌, ◌++◌, append_assoc,
  append-nil, Bytes, if◌then◌else◌,
}
use kratos_transport_rpc.Prelude.Text.{codes}
use kratos_transport_rpc.Stubs.{
  Method, Qualify, if_deprecated, format_full_method_symbol, full_method_name, full_methods,
  gen_full_methods, client_methods, is_unary,
}
use kratos_transport_rpc.Stubs.ClientText.{client_struct}
use kratos_transport_rpc.Stubs.ServerText.{
  handler_name, unary_handler, stream_handler, server_stream_types, server_stream_methods,
  gen_server_method, unimplemented_type,
}
use kratos_transport_rpc.Stubs.ServiceText.{
  Service, client_name, server_type, client_interface, new_client, client_texts, server_interface,
  unsafe_interface, register_methods, register, server_functions, gen_service,
}

-- how the lines begin that register a method, that declare the constant of its full name, and
-- that declare its handler
abbrev pub registration : Bytes → Method → Bytes
registration service m =
    codes "mqtt.REQ(r, "
    ++ (format_full_method_symbol service m
        ++ (codes ", "
            ++ (m.input ++ (codes "{}, " ++ (handler_name service m ++ codes "(srv))")))))

abbrev pub constant : Bytes → Bytes → Method → Bytes
constant service full_name m =
    format_full_method_symbol service m ++ (codes " = \"" ++ full_method_name full_name m)

abbrev pub declaration : Bytes → Method → Bytes
declaration service m = codes "func " ++ (handler_name service m ++ codes "(srv ")

-- some line begins so
unfoldable pub HasLine : Bytes → List Bytes → Type 0
HasLine start [] = ⊥
HasLine start (l ∷ ls) = ((rest : Bytes) × (l ≡ start ++ rest)) ⊎ HasLine start ls

HasLine-left : (start : Bytes) (ls ms : List Bytes) → HasLine start ls → HasLine start (ls ++ ms)
unfolding HasLine
HasLine-left start [] ms h = absurd h
HasLine-left start (l ∷ ls) ms (inl h) = inl h
HasLine-left start (l ∷ ls) ms (inr h) = inr (HasLine-left start ls ms h)

HasLine-right : (start : Bytes) (ls ms : List Bytes) → HasLine start ms → HasLine start (ls ++ ms)
unfolding HasLine
HasLine-right start [] ms h = h
HasLine-right start (l ∷ ls) ms h = inr (HasLine-right start ls ms h)

HasLine-if :
    (start : Bytes) (ls ms : List Bytes) (b : Bool)
    → HasLine start ls
    → HasLine start ms
    → HasLine start (if b then ls else ms)
HasLine-if start ls ms true h k = h
HasLine-if start ls ms false h k = k

-- the line that declares the constant of a method
constant_line :
    (service full_name : Bytes) (before after : List Method) (m : Method)
    → HasLine
        (constant service full_name m)
        (full_methods service full_name (before ++ (m ∷ after)))
unfolding HasLine full_methods
constant_line service full_name [] after m = inl (
  codes "\"",
  sym (
      append_assoc (format_full_method_symbol service m)
        (codes " = \"" ++ full_method_name full_name m) (codes "\"")
      ∙ ap (λ l. format_full_method_symbol service m ++ l)
          (append_assoc (codes " = \"") (full_method_name full_name m) (codes "\""))),
)
constant_line service full_name (b ∷ before) after m =
    inr (constant_line service full_name before after m)

in_constants :
    (start service full_name : Bytes) (ms : List Method)
    → HasLine start (full_methods service full_name ms)
    → HasLine start (gen_full_methods service full_name ms)
unfolding HasLine gen_full_methods
in_constants start service full_name ms h = inr h

module _ (q : Qualify) where
  -- the line that registers it
  register_line :
      (s : Service) (before after : List Method) (m : Method)
      → HasLine (registration s.go_name m) (register_methods q s (before ++ (m ∷ after)))
  unfolding HasLine register_methods
  register_line s [] after m = inl ([], sym (append-nil _))
  register_line s (b ∷ before) after m = inr (register_line s before after m)

  -- the lines that declare a handler, of both kinds
  unary_line :
      (server : Bytes) (m : Method) → HasLine (declaration m.parent m) (unary_handler q server m)
  unfolding HasLine unary_handler
  unary_line server m = inl (
    _,
    ap (λ l. codes "func " ++ l) (sym (append_assoc (handler_name m.parent m) (codes "(srv ") _)),
  )

  stream_line : (m : Method) → HasLine (declaration m.parent m) (stream_handler q m)
  unfolding HasLine stream_handler
  stream_line m = inl (
    _,
    ap (λ l. codes "func " ++ l) (sym (append_assoc (handler_name m.parent m) (codes "(srv ") _)),
  )

  -- the line that declares its handler
  handler_line :
      (server : Bytes) (before after : List Method) (m : Method)
      → HasLine (declaration m.parent m) (server_functions q server (before ++ (m ∷ after)))
  unfolding HasLine server_functions gen_server_method
  handler_line server [] after m =
      HasLine-left (declaration m.parent m) (gen_server_method q server m)
        (server_functions q server after)
        (HasLine-if (declaration m.parent m) (unary_handler q server m)
          (stream_handler q m ++ (server_stream_types q m ++ server_stream_methods q m))
          (is_unary m) (unary_line server m)
          (HasLine-left (declaration m.parent m) (stream_handler q m)
            (server_stream_types q m ++ server_stream_methods q m) (stream_line m)))
  handler_line server (b ∷ before) after m =
      HasLine-right (declaration m.parent m) (gen_server_method q server b)
        (server_functions q server (before ++ (m ∷ after))) (handler_line server before after m)

  in_register :
      (start : Bytes) (s : Service)
      → HasLine start (register_methods q s s.methods)
      → HasLine start (register q s)
  unfolding register HasLine
  in_register start s h =
      HasLine-right start (if_deprecated s.deprecated) _
        (inr (inr (HasLine-left start (register_methods q s s.methods) _ h)))

  -- the parts of a service's text
  in_service-constants :
      (start : Bytes) (required : Bool) (s : Service)
      → HasLine start (full_methods s.go_name s.full_name s.methods)
      → HasLine start (gen_service q required s)
  unfolding gen_service
  in_service-constants start required s h =
      HasLine-left start (gen_full_methods s.go_name s.full_name s.methods) _
        (in_constants start s.go_name s.full_name s.methods h)

  in_service-end :
      (start : Bytes) (required : Bool) (s : Service)
      → HasLine start (register q s ++ server_functions q (server_type s) s.methods)
      → HasLine start (gen_service q required s)
  unfolding gen_service
  in_service-end start required s h =
      HasLine-right start (gen_full_methods s.go_name s.full_name s.methods) _ (
        HasLine-right start (client_interface q s) _ (
          HasLine-right start (client_struct q (client_name s)) _ (
            HasLine-right start (new_client q s) _ (
              HasLine-right start (client_texts q (client_methods 0 0 s.methods)) _ (
                HasLine-right start (server_interface q required s) _ (
                  HasLine-right start (unimplemented_type q required (server_type s) s.methods) _
                    (HasLine-right start (unsafe_interface q s) _ h)))))))

  -- Each method of a service, whatever its kind of streams, is registered in the generated file
  -- under the constant of its full name and with its handler, and both are declared in the same
  -- file: the constant as the full name of the service and the name of the method, and the
  -- handler as a function of the server. The methods belong to the service.
  pub gen_service-declared :
      (required : Bool) (s : Service) (before after : List Method) (m : Method)
      → s.methods ≡ before ++ (m ∷ after)
      → m.parent ≡ s.go_name
      → HasLine (registration s.go_name m) (gen_service q required s)
        × HasLine (constant s.go_name s.full_name m) (gen_service q required s)
        × HasLine (declaration s.go_name m) (gen_service q required s)
  gen_service-declared required s before after m split mine = (
    in_service-end _ required s (
        HasLine-left _ (register q s) _ (
          in_register _ s (
            subst (λ ms. HasLine (registration s.go_name m) (register_methods q s ms)) (sym split)
              (register_line s before after m)))),
    in_service-constants _ required s (
        subst
          (λ ms. HasLine (constant s.go_name s.full_name m) (full_methods s.go_name s.full_name ms))
          (sym split) (constant_line s.go_name s.full_name before after m)),
    in_service-end _ required s (
        HasLine-right _ (register q s) _ (
          subst (λ ms. HasLine (declaration s.go_name m) (server_functions q (server_type s) ms))
            (sym split)
            (subst
              (λ parent.
                HasLine (declaration parent m)
                  (server_functions q (server_type s) (before ++ (m ∷ after))))
              mine (handler_line (server_type s) before after m)))),
  )
