-- ===== src/Stubs/FileText.antt =====
-- generateFile, protocVersion and genLeadingComments of cmd/protoc-gen-go-mqt/mqt.go: the lines
-- of a file.
use kratos_transport_rpc.Prelude.{
  ℕ, Bool, Option, none, some, List, [], ◌∷◌, ◌++◌, joined, Bytes, length, ◌==◌, if◌then◌else◌,
}
use kratos_transport_rpc.Prelude.Text.{codes}
use kratos_transport_rpc.Wire.{decimal}
use kratos_transport_rpc.Stubs.{Qualify}
use kratos_transport_rpc.Stubs.ServiceText.{Service, file_content}

-- the version of the compiler that calls the generator
pub record Version : Type 0 where
  pub major : ℕ
  pub minor : ℕ
  pub patch : ℕ
  pub suffix : Bytes

-- `protocVersion`
unfoldable pub protoc_version : Option Version → Bytes
unfolding decimal
protoc_version none = codes "(unknown)"
protoc_version (some v) =
    codes "v"
    ++ (decimal v.major
        ++ (codes "."
            ++ (decimal v.minor
                ++ (codes "."
                    ++ (decimal v.patch
                        ++ (if length v.suffix == 0 then [] else codes "-" ++ v.suffix))))))

-- The comments at a place, as they are printed: those that stand apart, and the one above it.
pub record Location : Type 0 where
  pub detached : List Bytes
  pub leading : Bytes

unfoldable pub detached_comments : List Bytes → List Bytes
detached_comments [] = []
detached_comments (c ∷ comments) = c ∷ [] ∷ detached_comments comments

-- `genLeadingComments`
unfoldable pub leading_comments : Location → List Bytes
unfolding detached_comments
leading_comments l =
    detached_comments l.detached ++ (if length l.leading == 0 then [] else l.leading ∷ [] ∷ [])

pub record FileInfo : Type 0 where
  pub path : Bytes
  pub deprecated : Bool
  pub package_name : Bytes
  pub syntax_comments : Location
  pub package_comments : Location
  pub services : List Service

-- the lines above the content
unfoldable pub file_head : Bytes → Option Version → FileInfo → List Bytes
file_head version protoc f =
    leading_comments f.syntax_comments
    ++ (codes "// Code generated by protoc-gen-go-mqtt. DO NOT EDIT."
        ∷ codes "// versions:"
        ∷ (codes "// - protoc-gen-go-mqtt v" ++ version)
        ∷ (codes "// - protoc             " ++ protoc_version protoc)
        ∷ (if f.deprecated
            then joined (codes "// " ∷ f.path ∷ codes " is a deprecated file." ∷ [])
            else codes "// source: " ++ f.path)
        ∷ []
        ∷ (leading_comments f.package_comments ++ ((codes "package " ++ f.package_name) ∷ [] ∷ [])))

-- `generateFile`; `none` where it makes no file
unfoldable pub generate_file :
    Qualify → Bool → Bytes → Option Version → FileInfo → Option (List Bytes)
generate_file q required version protoc f =
    if length f.services == 0
    then none
    else some (file_head version protoc f ++ file_content q required f.services)
