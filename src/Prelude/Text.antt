-- ===== src/Prelude/Text.antt =====
-- Text literals as bytes, and functions of package strings.
use Prim.Native.Nat.{ℕ}
use Prim.Native.Char.{code}
use Prim.Native.String.{String}
use mathlib.Core.Path.{◌≡◌, refl, sym, ap₂}
use mathlib.Core.Logic.{inl, inr}
use mathlib.Core.Bool.{Bool, true, false, ◌&&◌, ◌||◌}
use mathlib.Core.List.{List, [], ◌∷◌, ◌++◌}
use kratos_transport_rpc.Prelude.Tests.{◌==◌, ==_iff, Bool-cases}

-- The code points of a text: its bytes, if it is ASCII.
abbrev pub codes : String → List ℕ
codes String.[] = []
codes (String.◌∷◌ c s) = code c ∷ codes s

-- `strings.Join`
unfoldable pub join : List ℕ → List (List ℕ) → List ℕ
join sep [] = []
join sep (s ∷ []) = s
join sep (s ∷ t ∷ l) = s ++ (sep ++ join sep (t ∷ l))

-- `strings.HasPrefix`
unfoldable pub has_prefix : List ℕ → List ℕ → Bool
has_prefix s [] = true
has_prefix [] (p ∷ prefix) = false
has_prefix (x ∷ s) (p ∷ prefix) = x == p && has_prefix s prefix

pub has_prefix-true :
    (s prefix : List ℕ) → has_prefix s prefix ≡ true → (rest : List ℕ) × (s ≡ prefix ++ rest)
unfolding has_prefix
has_prefix-true s [] h = (s, refl)
has_prefix-true [] (p ∷ prefix) h = absurd (let e : true ≡ false = sym h in cc)
has_prefix-true (x ∷ s) (p ∷ prefix) h = elim (Bool-cases (x == p)) [
  | inl same ↦
      let (rest, e) = has_prefix-true s prefix (rw same at h) in
      (rest, ap₂ ◌∷◌ ((==_iff x p).0 same) e)
  | inr apart ↦ absurd (let e : false ≡ true = rw apart at h in cc)
]

-- `strings.Contains`
unfoldable pub contains : List ℕ → List ℕ → Bool
unfolding has_prefix
contains [] sub = has_prefix [] sub
contains (x ∷ s) sub = has_prefix (x ∷ s) sub || contains s sub
