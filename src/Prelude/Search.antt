-- ===== src/Prelude/Search.antt =====
-- Searching a list of bytes: `bytes.IndexByte`, and lists that lack a byte.
use Prim.Native.Nat.{ℕ, suc, ◌<◌}
use mathlib.Core.Path.{◌≡◌, refl, ap, sym, subst}
use mathlib.Core.Logic.{◌≢◌, inl, inr}
use mathlib.Core.List.{List, [], ◌∷◌, ◌++◌}
use mathlib.Core.Option.{Option, none, some}
use native.Mathlib.Omega.{arith}
use kratos_transport_rpc.Prelude.Tests.{◌==◌, if◌then◌else◌, ==_iff, Bool-cases}
use kratos_transport_rpc.Prelude.Lists.{length, take}

abbrev pub Lacks : ℕ → List ℕ → Type 0
Lacks c [] = Unit
Lacks c (x ∷ xs) = (x ≢ c) × Lacks c xs

abbrev pub suc? : Option ℕ → Option ℕ
suc? none = none
suc? (some i) = some (suc i)

-- The first position of `c`.
unfoldable pub index_byte : List ℕ → ℕ → Option ℕ
index_byte [] c = none
index_byte (x ∷ xs) c = if x == c then some 0 else suc? (index_byte xs c)

pub suc?-eq-some : (o : Option ℕ) (i : ℕ) → suc? o ≡ some i → (j : ℕ) × (o ≡ some j) × (i ≡ suc j)
suc?-eq-some none i h = cc
suc?-eq-some (some j) i h = (j, refl, cc)

pub suc?-eq-none : (o : Option ℕ) → suc? o ≡ none → o ≡ none
suc?-eq-none none h = refl
suc?-eq-none (some j) h = cc

-- What a found position says: the byte is there, and not before.
pub record Found (c : ℕ) (l : List ℕ) (i : ℕ) : Type 0 where
  pub inside : i < length l
  pub through : take (suc i) l ≡ take i l ++ (c ∷ [])
  pub before : Lacks c (take i l)

Found-here : {c x : ℕ} (xs : List ℕ) → x ≡ c → Found c (x ∷ xs) 0
Found-here xs e = record { inside = omega arith; through = ap (λ y. y ∷ []) e; before = tt }

Found-there : {c x : ℕ} (xs : List ℕ) (j : ℕ) → x ≢ c → Found c xs j → Found c (x ∷ xs) (suc j)
Found-there {x = x} xs j ne f = record {
  inside = omega (arith, f.inside);
  through = ap (◌∷◌ x) f.through;
  before = (ne, f.before);
}

pub index_byte-Found : (l : List ℕ) (c i : ℕ) → index_byte l c ≡ some i → Found c l i
unfolding index_byte
index_byte-Found [] c i h = cc
index_byte-Found (x ∷ xs) c i h = elim (Bool-cases (x == c)) [
  | inl same ↦
      let e : some 0 ≡ some i = rw same at h in
      let z : 0 ≡ i = cc in subst (λ k. Found c (x ∷ xs) k) z (Found-here xs ((==_iff x c).0 same))
  | inr other ↦
      let e : suc? (index_byte xs c) ≡ some i = rw other at h in
      let (j, ej, ei) = suc?-eq-some (index_byte xs c) i e in
      subst (λ k. Found c (x ∷ xs) k) (sym ei)
        (Found-there xs j (λ q. cc ((==_iff x c).1 q)) (index_byte-Found xs c j ej))
]

pub index_byte-none : (l : List ℕ) (c : ℕ) → index_byte l c ≡ none → Lacks c l
unfolding index_byte
index_byte-none [] c h = tt
index_byte-none (x ∷ xs) c h = ground (arith, index_byte-none xs c, suc?-eq-none (index_byte xs c))

-- A list with a first `c` is found to have it there.
pub index_byte-append :
    (l m : List ℕ) (c : ℕ) → Lacks c l → index_byte (l ++ (c ∷ m)) c ≡ some (length l)
unfolding index_byte
index_byte-append [] m c h = ground arith
index_byte-append (x ∷ xs) m c h = ground (arith, index_byte-append xs m c)

pub index_byte-eq-none : (l : List ℕ) (c : ℕ) → Lacks c l → index_byte l c ≡ none
unfolding index_byte
index_byte-eq-none [] c h = refl
index_byte-eq-none (x ∷ xs) c h = ground (arith, index_byte-eq-none xs c)
