-- ===== src/Prelude/Ends.antt =====
-- The last item of a list, and lists that lack a byte, under `take` and `++`.
use Prim.Native.Nat.{ℕ, zero, suc, ◌≤◌}
use mathlib.Core.Path.{◌≡◌, refl, ap}
use mathlib.Core.List.{List, [], ◌∷◌, ◌++◌}
use native.Mathlib.Omega.{arith}
use kratos_transport_rpc.Prelude.Lists.{length, take, get_or}
use kratos_transport_rpc.Prelude.Search.{Lacks}

pub split_last : (l : List ℕ) (n : ℕ) → length l ≡ suc n → l ≡ take n l ++ (get_or l n 0 ∷ [])
split_last [] n h = absurd (omega arith)
split_last (x ∷ []) zero h = refl
split_last (x ∷ y ∷ l) zero h = absurd (omega arith)
split_last (x ∷ l) (suc n) h = ap (◌∷◌ x) (split_last l n (omega arith))

pub take-append_le {ℓ} :
    {A : Type ℓ} (k : ℕ) (xs ys : List A) → k ≤ length xs → take k (xs ++ ys) ≡ take k xs
take-append_le zero xs ys h = refl
take-append_le (suc k) [] ys h = absurd (omega arith)
take-append_le (suc k) (x ∷ xs) ys h = ap (◌∷◌ x) (take-append_le k xs ys (omega arith))

pub Lacks-take : (c n : ℕ) (l : List ℕ) → Lacks c l → Lacks c (take n l)
Lacks-take c zero l h = tt
Lacks-take c (suc n) [] h = tt
Lacks-take c (suc n) (x ∷ l) h = (h.0, Lacks-take c n l h.1)

pub Lacks-append : (c : ℕ) (l m : List ℕ) → Lacks c l → Lacks c m → Lacks c (l ++ m)
Lacks-append c [] m h k = k
Lacks-append c (x ∷ l) m h k = (h.0, Lacks-append c l m h.1 k)

pub Lacks-get_or :
    (c : ℕ) (l : List ℕ) (n : ℕ) → Lacks c l → suc n ≤ length l → get_or l n 0 ≡ c → ⊥
Lacks-get_or c [] n h k e = omega arith
Lacks-get_or c (x ∷ l) zero h k e = h.0 e
Lacks-get_or c (x ∷ l) (suc n) h k e = Lacks-get_or c l n h.1 (omega arith) e

pub get_or-append_last : (l : List ℕ) (n x : ℕ) → length l ≡ n → get_or (l ++ (x ∷ [])) n 0 ≡ x
get_or-append_last [] zero x h = refl
get_or-append_last [] (suc n) x h = absurd (omega arith)
get_or-append_last (y ∷ l) zero x h = absurd (omega arith)
get_or-append_last (y ∷ l) (suc n) x h = get_or-append_last l n x (omega arith)

pub get_or-append {ℓ} :
    {A : Type ℓ} (xs ys : List A) (i : ℕ) (d : A)
    → suc i ≤ length xs
    → get_or (xs ++ ys) i d ≡ get_or xs i d
get_or-append [] ys i d h = absurd (omega arith)
get_or-append (x ∷ xs) ys zero d h = refl
get_or-append (x ∷ xs) ys (suc i) d h = get_or-append xs ys i d (omega arith)
