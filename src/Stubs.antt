-- ===== src/Stubs.antt =====
-- cmd/protoc-gen-go-mqt/mqt.go: the second generator. Modelled are the signatures of its client and
-- server stubs, the names of its methods, and the tables of methods that its stubs index. The
-- names that protogen makes of messages are fields of a method.
pub mod ClientText
pub mod ServerText
pub mod ServiceText
pub mod FileText
pub mod Indices
pub mod Braces
pub mod Defined
mod Tests
use kratos_transport_rpc.Prelude.{
  ℕ, ◌+◌, Bool, true, false, ◌&&◌, ◌||◌, not, List, [], ◌∷◌, ◌++◌, Bytes, leb, if◌then◌else◌,
}
use kratos_transport_rpc.Prelude.Text.{codes}

pub record Method : Type 0 where
  pub go_name : Bytes
  pub name : Bytes
  pub parent : Bytes
  pub input : Bytes
  pub output : Bytes
  pub streaming_client : Bool
  pub streaming_server : Bool
  pub deprecated : Bool
  -- the comment above it, as it is printed
  pub leading : Bytes

-- `formatFullMethodSymbol`
unfoldable pub format_full_method_symbol : Bytes → Method → Bytes
format_full_method_symbol service m =
    service ++ (codes "_" ++ (m.go_name ++ codes "_Mqt_FullMethodName"))

-- `fmName`
unfoldable pub full_method_name : Bytes → Method → Bytes
full_method_name full_name m = codes "/" ++ (full_name ++ (codes "/" ++ m.name))

-- the lines of `genFullMethods`, for a service with its name and its full name
unfoldable pub full_methods : Bytes → Bytes → List Method → List Bytes
unfolding format_full_method_symbol full_method_name
full_methods service full_name [] = codes ")" ∷ [] ∷ []
full_methods service full_name (m ∷ ms) =
    (format_full_method_symbol service m
      ++ (codes " = \"" ++ (full_method_name full_name m ++ codes "\"")))
    ∷ full_methods service full_name ms

unfoldable pub gen_full_methods : Bytes → Bytes → List Method → List Bytes
unfolding full_methods
gen_full_methods service full_name ms = codes "const (" ∷ full_methods service full_name ms

-- `clientSignature`; `ctx` and `option` are the qualified names of Context and CallOption
unfoldable pub client_signature : Bytes → Bytes → Method → Bytes
client_signature ctx option m =
    m.go_name
    ++ (codes "(ctx "
        ++ (ctx
            ++ ((if not m.streaming_client then codes ", topic string, in *" ++ m.input else [])
                ++ (codes ", opts ..."
                    ++ (option
                        ++ (codes ") ("
                            ++ ((if not m.streaming_client && not m.streaming_server
                                  then codes "*" ++ m.output
                                  else m.parent ++ (codes "_" ++ (m.go_name ++ codes "MqtClient")))
                                ++ codes ", error)")))))))

-- What protogen prints for an identifier of package context, of server/mqtt, of errors.
pub record Qualify : Type 0 where
  pub context : Bytes → Bytes
  pub mqtt : Bytes → Bytes
  pub errors : Bytes → Bytes

-- `unexport`; a name is not empty and its first byte is ASCII
unfoldable pub unexport : Bytes → Bytes
unexport [] = []
unexport (x ∷ s) = (if leb b'A' x && leb x b'Z' then x + 32 else x) ∷ s

abbrev pub deprecation_comment : Bytes
deprecation_comment = codes "// Deprecated: Do not use."

abbrev pub if_deprecated : Bool → List Bytes
if_deprecated true = deprecation_comment ∷ []
if_deprecated false = []

-- `strings.Join(args, ", ")`
unfoldable pub join_comma : List Bytes → Bytes
join_comma [] = []
join_comma (a ∷ []) = a
join_comma (a ∷ b ∷ args) = a ++ (codes ", " ++ join_comma (b ∷ args))

-- `reqArgs` of `serverSignature`
unfoldable pub server_args : Bytes → Method → List Bytes
server_args ctx m =
    (if not m.streaming_client && not m.streaming_server then ctx ∷ [] else [])
    ++ ((if not m.streaming_client then (codes "*" ++ m.input) ∷ [] else [])
        ++ (if m.streaming_client || m.streaming_server
            then (m.parent ++ (codes "_" ++ (m.go_name ++ codes "MqtServer"))) ∷ []
            else []))

-- `serverSignature`
unfoldable pub server_signature : Bytes → Method → Bytes
unfolding server_args join_comma
server_signature ctx m =
    m.go_name
    ++ (codes "("
        ++ (join_comma (server_args ctx m)
            ++ (codes ") "
                ++ (if not m.streaming_client && not m.streaming_server
                    then codes "(*" ++ (m.output ++ codes ", error)")
                    else codes "error"))))

abbrev pub is_unary : Method → Bool
is_unary m = not m.streaming_server && not m.streaming_client

-- one round of the loop below: the index of a method, and which counter is advanced
unfoldable pub client_method :
    Bool → Method → ℕ → ℕ → (ℕ → ℕ → List (Method × ℕ)) → List (Method × ℕ)
client_method true m method_index stream_index next =
    (m, method_index) ∷ next (method_index + 1) stream_index
client_method false m method_index stream_index next =
    (m, stream_index) ∷ next method_index (stream_index + 1)

-- the client methods of `genService`, each with the index that `genClientMethod` gets
unfoldable pub client_methods : ℕ → ℕ → List Method → List (Method × ℕ)
unfolding client_method
client_methods method_index stream_index [] = []
client_methods method_index stream_index (m ∷ ms) =
    client_method (is_unary m) m method_index stream_index (λ i j. client_methods i j ms)

-- the entries of `Methods` that `genServiceDesc` writes
unfoldable pub desc_methods : List Method → List Method
desc_methods [] = []
desc_methods (m ∷ ms) =
    let rest = desc_methods ms in
    if m.streaming_client || m.streaming_server then rest else m ∷ rest

-- the entries of `Streams`
unfoldable pub desc_streams : List Method → List Method
desc_streams [] = []
desc_streams (m ∷ ms) =
    let rest = desc_streams ms in
    if not m.streaming_client && not m.streaming_server then rest else m ∷ rest
