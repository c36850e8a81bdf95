-- ===== src/Prelude/Slices.antt =====
-- Byte arrays: the part `b[i:j]` of an array, and Go's `copy` into one.
use Prim.Native.Nat.{ℕ, zero, suc, ◌+◌, ◌-◌, ◌≤◌}
use mathlib.Core.Path.{◌≡◌, refl, ap}
use mathlib.Core.List.{List, [], ◌∷◌, ◌++◌}
use native.Mathlib.Omega.{arith}
use kratos_transport_rpc.Prelude.Lists.{length, take, drop, length-take, length-drop}

abbrev pub Bytes : Type 0
Bytes = List ℕ

module _ {ℓ} {A : Type ℓ} where
  -- `b[i:j]`
  abbrev pub slice : List A → ℕ → ℕ → List A
  slice b i j = take (j - i) (drop i b)

  -- `copy(dst, src)`: as much of `src` as `dst` has room for
  abbrev pub copy : List A → List A → List A
  copy [] src = []
  copy (d ∷ ds) [] = d ∷ ds
  copy (d ∷ ds) (x ∷ xs) = x ∷ copy ds xs

  -- `copy(dst[i:], src)`
  abbrev pub copy_at : List A → ℕ → List A → List A
  copy_at dst zero src = copy dst src
  copy_at [] (suc i) src = []
  copy_at (d ∷ ds) (suc i) src = d ∷ copy_at ds i src

  pub length-copy : (dst src : List A) → length (copy dst src) ≡ length dst
  length-copy [] src = refl
  length-copy (d ∷ ds) [] = refl
  length-copy (d ∷ ds) (x ∷ xs) = ap suc (length-copy ds xs)

  pub length-copy_at :
      (dst : List A) (i : ℕ) (src : List A) → length (copy_at dst i src) ≡ length dst
  length-copy_at dst zero src = length-copy dst src
  length-copy_at [] (suc i) src = refl
  length-copy_at (d ∷ ds) (suc i) src = ap suc (length-copy_at ds i src)

  pub take-copy :
      (dst src : List A) → length src ≤ length dst → take (length src) (copy dst src) ≡ src
  take-copy dst [] h = refl
  take-copy [] (x ∷ xs) h = absurd (omega arith)
  take-copy (d ∷ ds) (x ∷ xs) h = ap (◌∷◌ x) (take-copy ds xs (omega arith))

  -- Writing at `i` extends the first `i` items by what is written.
  pub take-copy_at :
      (dst : List A) (i j : ℕ) (src : List A)
      → i + length src ≤ length dst
      → j ≡ i + length src
      → take j (copy_at dst i src) ≡ take i dst ++ src
  take-copy_at dst zero j src h e =
      let e' : length src ≡ j = omega arith in rw (← e') (take-copy dst src (omega arith))
  take-copy_at [] (suc i) j src h e = absurd (omega arith)
  take-copy_at (d ∷ ds) (suc i) zero src h e = absurd (omega arith)
  take-copy_at (d ∷ ds) (suc i) (suc j) src h e =
      ap (◌∷◌ d) (take-copy_at ds i j src (omega arith) (omega arith))

  pub take-copy_le :
      (k : ℕ) (dst src : List A)
      → k ≤ length dst
      → k ≤ length src
      → take k (copy dst src) ≡ take k src
  take-copy_le zero dst src h g = refl
  take-copy_le (suc k) [] src h g = absurd (omega arith)
  take-copy_le (suc k) (d ∷ ds) [] h g = absurd (omega arith)
  take-copy_le (suc k) (d ∷ ds) (x ∷ xs) h g =
      ap (◌∷◌ x) (take-copy_le k ds xs (omega arith) (omega arith))

  -- The same for a part of `src`, also where not all of it fits.
  pub take-copy_at_le :
      (dst : List A) (i k j : ℕ) (src : List A)
      → j ≡ i + k
      → j ≤ length dst
      → k ≤ length src
      → take j (copy_at dst i src) ≡ take i dst ++ take k src
  take-copy_at_le dst zero k j src e h g =
      let e' : k ≡ j = omega arith in rw (← e') (take-copy_le k dst src (omega arith) g)
  take-copy_at_le [] (suc i) k j src e h g = absurd (omega arith)
  take-copy_at_le (d ∷ ds) (suc i) k zero src e h g = absurd (omega arith)
  take-copy_at_le (d ∷ ds) (suc i) k (suc j) src e h g =
      ap (◌∷◌ d) (take-copy_at_le ds i k j src (omega arith) (omega arith) g)

  pub length-slice : (b : List A) (i j : ℕ) → j ≤ length b → length (slice b i j) ≡ j - i
  length-slice b i j h = omega (arith, length-take (j - i) (drop i b), length-drop i b)
