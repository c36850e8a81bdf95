-- ===== src/Stubs/Braces/Files.antt =====
-- The lines of a file that generateFile of cmd/protoc-gen-go-mqt/mqt.go makes: the braces balance.
use kratos_transport_rpc.Prelude.{
  ℕ, ◌≡◌, refl, ◌⊎◌, inl, inr, Bool, true, Bool-cases, Option, none, some, List, [], ◌∷◌, ◌++◌,
  Bytes, length, ◌==◌, ==_iff,
}
use kratos_transport_rpc.Wire.{decimal}
use kratos_transport_rpc.Stubs.{Qualify}
use kratos_transport_rpc.Stubs.ServiceText.{file_content}
use kratos_transport_rpc.Stubs.FileText.{
  Version, protoc_version, Location, detached_comments, leading_comments, FileInfo, file_head,
  generate_file,
}
use kratos_transport_rpc.Stubs.Braces.{
  scan, scan_lines, plain, scan_lines-append, scan-plain, scan-plain_end, scan-if_line,
  scan_lines-if, decimal-plain, if_same,
}
use kratos_transport_rpc.Stubs.Braces.Methods.{PlainIdents}
use kratos_transport_rpc.Stubs.Braces.Services.{AllServices, file_content-balanced}

abbrev pub AllTexts : List Bytes → Type 0
AllTexts [] = Unit
AllTexts (t ∷ ts) = (plain t ≡ true) × AllTexts ts

abbrev pub PlainVersion : Option Version → Type 0
PlainVersion none = Unit
PlainVersion (some v) = plain v.suffix ≡ true

pub record PlainFile (f : FileInfo) : Type 0 where
  pub path : plain f.path ≡ true
  pub package_name : plain f.package_name ≡ true
  pub syntax_detached : AllTexts f.syntax_comments.detached
  pub syntax_leading : plain f.syntax_comments.leading ≡ true
  pub package_detached : AllTexts f.package_comments.detached
  pub package_leading : plain f.package_comments.leading ≡ true
  pub services : AllServices f.services

detached_eq : (d : ℕ) (l : List Bytes) → AllTexts l → scan_lines d (detached_comments l) ≡ some d
unfolding scan_lines scan detached_comments
detached_eq d [] all = refl
detached_eq d (c ∷ l) all = simp (scan-plain_end c all.0, detached_eq d l all.1)

leading_eq :
    (d : ℕ) (l : Location)
    → AllTexts l.detached
    → plain l.leading ≡ true
    → scan_lines d (leading_comments l) ≡ some d
unfolding scan_lines scan leading_comments
leading_eq d l all h = simp (
  scan_lines-append,
  detached_eq d l.detached all,
  scan_lines-if,
  scan-plain_end l.leading h,
  if_same,
)

version_eq : (d : ℕ) (v : Option Version) → PlainVersion v → scan d (protoc_version v) ≡ some d
unfolding scan protoc_version
version_eq d none h = refl
version_eq d (some v) h = simp (
  scan-plain (decimal v.major) (decimal-plain v.major),
  scan-plain (decimal v.minor) (decimal-plain v.minor),
  scan-plain (decimal v.patch) (decimal-plain v.patch),
  scan-if_line,
  scan-plain_end v.suffix h,
  if_same,
)

module _ (q : Qualify) (p : PlainIdents q) (required : Bool) (version : Bytes)
    (protoc : Option Version) (f : FileInfo) (v : plain version ≡ true) (w : PlainVersion protoc)
    (h : PlainFile f) where
  head_eq : scan_lines 0 (file_head version protoc f) ≡ some 0
  unfolding scan_lines scan file_head
  head_eq = simp (
    scan_lines-append,
    leading_eq 0 f.syntax_comments h.syntax_detached h.syntax_leading,
    leading_eq 0 f.package_comments h.package_detached h.package_leading,
    scan-plain_end version v,
    version_eq 0 protoc w,
    scan-if_line,
    scan-plain f.path h.path,
    scan-plain_end f.path h.path,
    scan-plain_end f.package_name h.package_name,
    if_same,
  )

  -- A file is made exactly if it has a service, and its braces balance: read from its first line
  -- on, no brace is closed that is not open, and at the end none is open, for services with
  -- methods of all kinds of streams. The names, comments, versions and identifiers that the
  -- generator is given have no braces themselves.
  pub generate_file-balanced :
      ((length f.services ≡ 0) × (generate_file q required version protoc f ≡ none))
      ⊎ ((lines : List Bytes) × (generate_file q required version protoc f ≡ some lines)
          × (scan_lines 0 lines ≡ some 0))
  unfolding scan_lines generate_file
  generate_file-balanced = elim (Bool-cases (length f.services == 0)) [
    | inl empty ↦ inl ((==_iff (length f.services) 0).0 empty, rw empty)
    | inr some_service ↦ inr (
      file_head version protoc f ++ file_content q required f.services,
      rw some_service,
      simp (scan_lines-append, head_eq, file_content-balanced q p required f.services h.services),
    )
  ]
