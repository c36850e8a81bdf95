-- ===== src/Pool/Addresses.antt =====
-- Lists of addresses without repetitions.
use kratos_transport_rpc.Prelude.{ℕ, zero, suc, ◌<◌, ◌≢◌, sym, List, [], ◌∷◌, ◌++◌, arith}

abbrev pub Fresh : ℕ → List ℕ → Type 0
Fresh a [] = Unit
Fresh a (x ∷ l) = (a ≢ x) × Fresh a l

abbrev pub Distinct : List ℕ → Type 0
Distinct [] = Unit
Distinct (x ∷ l) = Fresh x l × Distinct l

abbrev pub AllBelow : ℕ → List ℕ → Type 0
AllBelow n [] = Unit
AllBelow n (x ∷ l) = (x < n) × AllBelow n l

-- The addresses a, ..., a + k.
unfoldable pub upto : ℕ → ℕ → List ℕ
upto a zero = a ∷ []
upto a (suc k) = a ∷ upto (suc a) k

pub Fresh-upto : (x a k : ℕ) → x < a → Fresh x (upto a k)
unfolding upto
Fresh-upto x a zero h = ((λ e. omega arith), tt)
Fresh-upto x a (suc k) h = ((λ e. omega arith), Fresh-upto x (suc a) k (omega arith))

Distinct-upto : (a k : ℕ) → Distinct (upto a k)
unfolding upto
Distinct-upto a zero = (tt, tt)
Distinct-upto a (suc k) = (Fresh-upto a (suc a) k (omega arith), Distinct-upto (suc a) k)

pub Fresh-append : (x : ℕ) (l r : List ℕ) → Fresh x l → Fresh x r → Fresh x (l ++ r)
Fresh-append x [] r f g = g
Fresh-append x (y ∷ l) r (ne, f) g = (ne, Fresh-append x l r f g)

pub Fresh-left : (x : ℕ) (l r : List ℕ) → Fresh x (l ++ r) → Fresh x l
Fresh-left x [] r f = tt
Fresh-left x (y ∷ l) r (ne, f) = (ne, Fresh-left x l r f)

pub Fresh-right : (x : ℕ) (l r : List ℕ) → Fresh x (l ++ r) → Fresh x r
Fresh-right x [] r f = f
Fresh-right x (y ∷ l) r (ne, f) = Fresh-right x l r f

-- An address may move anywhere in a list without repetitions.
Fresh-middle : (x a : ℕ) (l r : List ℕ) → Fresh x (l ++ a ∷ r) → (x ≢ a) × Fresh x (l ++ r)
Fresh-middle x a [] r f = f
Fresh-middle x a (y ∷ l) r (ne, f) = let (na, g) = Fresh-middle x a l r f in (na, (ne, g))

Fresh-insert : (x a : ℕ) (l r : List ℕ) → x ≢ a → Fresh x (l ++ r) → Fresh x (l ++ a ∷ r)
Fresh-insert x a [] r na f = (na, f)
Fresh-insert x a (y ∷ l) r na (ne, f) = (ne, Fresh-insert x a l r na f)

pub Distinct-out : (a : ℕ) (l r : List ℕ) → Distinct (l ++ a ∷ r) → Distinct (a ∷ l ++ r)
Distinct-out a [] r d = d
Distinct-out a (x ∷ l) r (f, d) =
    let (na, f1) = Fresh-middle x a l r f in
    let (fa, d1) = Distinct-out a l r d in (((λ e. na (sym e)), fa), (f1, d1))

pub Distinct-in : (a : ℕ) (l r : List ℕ) → Distinct (a ∷ l ++ r) → Distinct (l ++ a ∷ r)
Distinct-in a [] r d = d
Distinct-in a (x ∷ l) r ((na, fa), (f, d)) =
    (Fresh-insert x a l r (λ e. na (sym e)) f, Distinct-in a l r (fa, d))

-- Addresses below a new block are not in it.
pub Distinct-block :
    (l : List ℕ) (a k : ℕ) → Distinct (l ++ []) → AllBelow a l → Distinct (l ++ upto a k)
Distinct-block [] a k d b = Distinct-upto a k
Distinct-block (x ∷ l) a k (f, d) (lt, b) = (
  Fresh-append x l (upto a k) (Fresh-left x l [] f) (Fresh-upto x a k lt),
  Distinct-block l a k d b,
)
