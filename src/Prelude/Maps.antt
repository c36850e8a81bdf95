-- ===== src/Prelude/Maps.antt =====
-- Go maps from texts, as lists of keys with their values, each key once.
use Prim.Native.Nat.{ℕ}
use mathlib.Core.Path.{◌≡◌, refl, ap₂, sym, ◌∙◌}
use mathlib.Core.Logic.{◌≢◌, inl, inr}
use mathlib.Core.Bool.{Bool, true, false, ◌&&◌}
use mathlib.Core.List.{List, [], ◌∷◌}
use mathlib.Core.Option.{Option, none, some}
use kratos_transport_rpc.Prelude.Tests.{◌==◌, if◌then◌else◌, ==_iff, Bool-cases}

abbrev Text : Type 0
Text = List ℕ

unfoldable pub equal_bytes : Text → Text → Bool
equal_bytes [] [] = true
equal_bytes [] (y ∷ ys) = false
equal_bytes (x ∷ xs) [] = false
equal_bytes (x ∷ xs) (y ∷ ys) = x == y && equal_bytes xs ys

pub equal_bytes-true : (k l : Text) → equal_bytes k l ≡ true → k ≡ l
unfolding equal_bytes
equal_bytes-true [] [] h = refl
equal_bytes-true [] (y ∷ l) h = cc
equal_bytes-true (x ∷ k) [] h = cc
equal_bytes-true (x ∷ k) (y ∷ l) h = elim (Bool-cases (x == y)) [
  | inl same ↦ ap₂ ◌∷◌ ((==_iff x y).0 same) (equal_bytes-true k l (rw same at h))
  | inr other ↦ absurd (let e : false ≡ true = rw other at h in cc)
]

pub equal_bytes_refl : (k : Text) → equal_bytes k k ≡ true
unfolding equal_bytes
equal_bytes_refl [] = refl
equal_bytes_refl (x ∷ k) = rw ((==_iff x x).1 refl) (equal_bytes_refl k)

pub equal_bytes-false : (k l : Text) → k ≢ l → equal_bytes k l ≡ false
equal_bytes-false k l h = elim (Bool-cases (equal_bytes k l)) [
  | inl same ↦ absurd (h (equal_bytes-true k l same))
  | inr other ↦ other
]

abbrev pub TextMap : Type 0 → Type 0
TextMap V = List (Text × V)

module _ {V : Type 0} where
  -- `m[key]`
  unfoldable pub lookup : Text → TextMap V → Option V
  unfolding equal_bytes
  lookup key [] = none
  lookup key ((k, v) ∷ m) = if equal_bytes k key then some v else lookup key m

  -- `m[key] = v`
  unfoldable pub store : Text → V → TextMap V → TextMap V
  unfolding equal_bytes
  store key v [] = (key, v) ∷ []
  store key v ((k, w) ∷ m) = if equal_bytes k key then (k, v) ∷ m else (k, w) ∷ store key v m

  -- `delete(m, key)`
  unfoldable pub remove : Text → TextMap V → TextMap V
  unfolding equal_bytes
  remove key [] = []
  remove key ((k, w) ∷ m) =
      let rest = remove key m in if equal_bytes k key then rest else (k, w) ∷ rest

  pub lookup-store : (key : Text) (v : V) (m : TextMap V) → lookup key (store key v m) ≡ some v
  unfolding lookup store
  lookup-store key v [] = rw (equal_bytes_refl key)
  lookup-store key v ((k, w) ∷ m) = elim (Bool-cases (equal_bytes k key)) [
    | inl same ↦ rw (same, same)
    | inr other ↦ rw (other, other) (lookup-store key v m)
  ]

  pub lookup-store_other :
      (key other : Text) (v : V) (m : TextMap V)
      → key ≢ other
      → lookup other (store key v m) ≡ lookup other m
  unfolding lookup store
  lookup-store_other key other v [] h = rw (equal_bytes-false key other h)
  lookup-store_other key other v ((k, w) ∷ m) h = elim (Bool-cases (equal_bytes k key)) [
    | inl same ↦
        let e = equal_bytes-true k key same in
        let apart = equal_bytes-false k other (λ q. h (sym e ∙ q)) in rw (same, apart)
    | inr different ↦ elim (Bool-cases (equal_bytes k other)) [
      | inl here ↦ rw (different, here)
      | inr there ↦ rw (different, there) (lookup-store_other key other v m h)
    ]
  ]

  pub lookup-remove : (key : Text) (m : TextMap V) → lookup key (remove key m) ≡ none
  unfolding lookup remove
  lookup-remove key [] = refl
  lookup-remove key ((k, w) ∷ m) = elim (Bool-cases (equal_bytes k key)) [
    | inl same ↦ rw same (lookup-remove key m)
    | inr other ↦ rw (other, other) (lookup-remove key m)
  ]

  pub lookup-remove_other :
      (key other : Text) (m : TextMap V)
      → key ≢ other
      → lookup other (remove key m) ≡ lookup other m
  unfolding lookup remove
  lookup-remove_other key other [] h = refl
  lookup-remove_other key other ((k, w) ∷ m) h = elim (Bool-cases (equal_bytes k key)) [
    | inl same ↦
        let e = equal_bytes-true k key same in
        let apart = equal_bytes-false k other (λ q. h (sym e ∙ q)) in
        rw (same, apart) (lookup-remove_other key other m h)
    | inr different ↦ elim (Bool-cases (equal_bytes k other)) [
      | inl here ↦ rw (different, here)
      | inr there ↦ rw (different, there) (lookup-remove_other key other m h)
    ]
  ]
