-- ===== src/Context/Find.antt =====
-- What Get, ByName and Last of server/mqtt/context.go find.
use kratos_transport_rpc.Prelude.{
  ◌≡◌, ◌≢◌, refl, ap, sym, ◌∙◌, ◌⊎◌, inl, inr, true, false, [], ◌∷◌, ◌++◌, Bytes, Bool-cases,
}
use kratos_transport_rpc.Prelude.Maps.{equal_bytes, equal_bytes-true, equal_bytes_refl}
use kratos_transport_rpc.Context.{Param, Params, get, by_name}

-- no entry has the name
unfoldable pub NoneNamed : Bytes → Params → Type 0
NoneNamed name [] = Unit
NoneNamed name (entry ∷ ps) = (entry.key ≢ name) × NoneNamed name ps

named_apart : (k name : Bytes) → equal_bytes k name ≡ false → k ≢ name
named_apart k name h e =
    let t : equal_bytes k name ≡ true = ap (λ n. equal_bytes k n) (sym e) ∙ equal_bytes_refl k in
    let f : true ≡ false = sym t ∙ h in cc

-- Get and ByName find the value of the first parameter that has the name, wherever it stands and
-- whatever stands behind it; if none has the name they give the empty text, and Get false.
pub get_lem :
    (ps : Params) (name : Bytes)
    → ((before : Params) × (entry : Param) × (after : Params) × (ps ≡ before ++ (entry ∷ after))
        × NoneNamed name before
        × (entry.key ≡ name)
        × (get ps name ≡ (entry.value, true))
        × (by_name ps name ≡ entry.value))
      ⊎ (NoneNamed name ps × (get ps name ≡ ([], false)) × (by_name ps name ≡ []))
unfolding get by_name NoneNamed
get_lem [] name = inr (tt, refl, refl)
get_lem (p ∷ ps) name = elim (Bool-cases (equal_bytes p.key name)) [
  | inl same ↦
      inl ([], p, ps, refl, tt, equal_bytes-true p.key name same, rw same, rw (by_name, same))
  | inr other ↦ elim (get_lem ps name) [
    | inl (before, entry, after, split, apart, named, found, value) ↦ inl (
      p ∷ before,
      entry,
      after,
      ap (λ l. p ∷ l) split,
      (named_apart p.key name other, apart),
      named,
      rw other found,
      rw (by_name, other) value,
    )
    | inr (apart, missing, empty) ↦
        inr ((named_apart p.key name other, apart), rw other missing, rw (by_name, other) empty)
  ]
]
