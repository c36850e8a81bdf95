-- ===== src/Broker/Braces.antt =====
-- `FindHeader` finds the first position where the braces are balanced.
use kratos_transport_rpc.Prelude.{
  ℕ, zero, suc, ◌+◌, ◌-◌, ◌≤◌, ◌<◌, ◌≡◌, refl, ap, ◌∙◌, ◌⊎◌, inl, inr, [], ◌∷◌, Bytes, length, take,
  ◌==◌, ==_iff, if◌then◌else◌, false, Bool-cases, arith,
}
use kratos_transport_rpc.Io.{Outcome, done, panics, slice_bounds}
use kratos_transport_rpc.Broker.{find_loop, find_header}

-- How often a byte occurs.
abbrev pub count_of : ℕ → Bytes → ℕ
count_of c [] = 0
count_of c (x ∷ s) = if x == c then count_of c s + 1 else count_of c s

abbrev pub opens : Bytes → ℕ
opens s = count_of b'{' s

abbrev pub closes : Bytes → ℕ
closes s = count_of b'}' s

-- Balanced for the first time after m bytes, behind text with `depth` braces open.
pub record Closes (depth : ℕ) (s : Bytes) (m : ℕ) : Type 0 where
  pub inside : m ≤ length s
  pub balanced : depth + opens (take m s) ≡ closes (take m s)
  pub before : (k : ℕ) → k < m → closes (take k s) < depth + opens (take k s)

abbrev pub NeverCloses : ℕ → Bytes → Type 0
NeverCloses depth s = (k : ℕ) → k ≤ length s → closes (take k s) < depth + opens (take k s)

-- One byte more in front.
Closes-cons :
    (x depth next m : ℕ) (s : Bytes)
    → 0 < depth
    → ((k : ℕ)
        → depth + opens (take (suc k) (x ∷ s)) + closes (take k s)
          ≡ next + opens (take k s) + closes (take (suc k) (x ∷ s)))
    → Closes next s m
    → Closes depth (x ∷ s) (suc m)
Closes-cons x depth next m s some_depth step c = record {
  inside = omega (arith, c.inside);
  balanced = omega (arith, step m, c.balanced);
  before = go;
}
  where
    go : (k : ℕ) → k < suc m → closes (take k (x ∷ s)) < depth + opens (take k (x ∷ s))
    go zero lt = omega arith
    go (suc k) lt = omega (arith, step k, c.before k (omega arith))

NeverCloses-cons :
    (x depth next : ℕ) (s : Bytes)
    → 0 < depth
    → ((k : ℕ)
        → depth + opens (take (suc k) (x ∷ s)) + closes (take k s)
          ≡ next + opens (take k s) + closes (take (suc k) (x ∷ s)))
    → NeverCloses next s
    → NeverCloses depth (x ∷ s)
NeverCloses-cons x depth next s some_depth step c zero le = omega arith
NeverCloses-cons x depth next s some_depth step c (suc k) le =
    omega (arith, step k, c k (omega arith))

-- What the loop returns from position n, behind text with `depth` braces open.
abbrev pub Finds : ℕ → ℕ → Bytes → ℕ → Type 0
Finds n depth s r =
    ((m : ℕ) × (r ≡ n + m) × (0 < m) × Closes depth s m) ⊎ (r ≡ 0) × NeverCloses depth s

Finds-cons :
    (x n depth next : ℕ) (s : Bytes) (r : ℕ)
    → 0 < depth
    → ((k : ℕ)
        → depth + opens (take (suc k) (x ∷ s)) + closes (take k s)
          ≡ next + opens (take k s) + closes (take (suc k) (x ∷ s)))
    → Finds (n + 1) next s r
    → Finds n depth (x ∷ s) r
Finds-cons x n depth next s r some_depth step (inl (m, e, some_m, c)) =
    inl (suc m, omega arith, omega arith, Closes-cons x depth next m s some_depth step c)
Finds-cons x n depth next s r some_depth step (inr (e, c)) =
    inr (e, NeverCloses-cons x depth next s some_depth step c)

find_loop-Finds : (s : Bytes) (n depth : ℕ) → 0 < depth → Finds n depth s (find_loop s n depth)
unfolding find_loop
find_loop-Finds [] n depth some_depth =
    inr (refl, λ k le. let z : k ≡ 0 = omega arith in rw z (omega arith))
find_loop-Finds (x ∷ s) n depth some_depth = elim (Bool-cases (x == b'{')) [
  | inl opened ↦
      let e = (==_iff x b'{').0 opened in
      rw e (
        Finds-cons b'{' n depth (depth + 1) s (find_loop s (n + 1) (depth + 1)) some_depth
          (λ k. omega arith) (find_loop-Finds s (n + 1) (depth + 1) (omega arith)))
  | inr unopened ↦ elim (Bool-cases (x == b'}')) [
    | inl closed ↦
        (let e = (==_iff x b'}').0 closed in
          rw e (elim (Bool-cases (depth == 1)) [
            | inl last ↦
                let one = (==_iff depth 1).0 last in
                rw last (
                  inl (
                    1,
                    refl,
                    omega arith,
                    record {
                      inside = omega arith;
                      balanced = omega (arith, one);
                      before = λ k lt. let z : k ≡ 0 = omega arith in rw z (omega arith);
                    },
                  ))
            | inr more ↦
                let lt : 0 < depth - 1 = ground arith in
                rw more (
                  Finds-cons b'}' n depth (depth - 1) s (find_loop s (n + 1) (depth - 1)) some_depth
                    (λ k. omega arith) (find_loop-Finds s (n + 1) (depth - 1) lt))
          ]))
    | inr other ↦
        rw (unopened, other)
          (Finds-cons x n depth depth s (find_loop s (n + 1) depth) some_depth
            (λ k. rw (unopened, other) (omega arith)) (find_loop-Finds s (n + 1) depth some_depth))
  ]
]

-- The first m bytes are balanced, and no fewer of them are.
pub record IsHeader (s : Bytes) (m : ℕ) : Type 0 where
  pub some_bytes : 0 < m
  pub inside : m ≤ length s
  pub balanced : opens (take m s) ≡ closes (take m s)
  pub before : (k : ℕ) → 0 < k → k < m → closes (take k s) < opens (take k s)

IsHeader-from : (s : Bytes) (m : ℕ) → Closes 1 s m → IsHeader (b'{' ∷ s) (suc m)
IsHeader-from s m c = record {
  some_bytes = omega arith;
  inside = omega (arith, c.inside);
  balanced = omega (arith, c.balanced);
  before = go;
}
  where
    go : (k : ℕ) → 0 < k → k < suc m → closes (take k (b'{' ∷ s)) < opens (take k (b'{' ∷ s))
    go zero some_k lt = absurd (omega arith)
    go (suc k) some_k lt = omega (arith, c.before k (omega arith))

-- No first bytes are balanced.
abbrev pub NoHeader : Bytes → Type 0
NoHeader s = (k : ℕ) → 0 < k → k ≤ length s → closes (take k s) < opens (take k s)

never_from : (s : Bytes) → NeverCloses 1 s → NoHeader (b'{' ∷ s)
never_from s c zero some_k le = absurd (omega arith)
never_from s c (suc k) some_k le = omega (arith, c k (omega arith))

-- What `FindHeader` returns for bytes: a panic without any, and otherwise by their first byte.
abbrev pub HeaderOf : Bytes → Outcome ℕ → Type 0
HeaderOf [] result = result ≡ panics slice_bounds
HeaderOf (x ∷ s) result =
    ((x == b'{') ≡ false) × (result ≡ done 0)
    ⊎ (x ≡ b'{') × ((m : ℕ) × (result ≡ done m) × IsHeader (x ∷ s) m)
    ⊎ (x ≡ b'{') × (result ≡ done 0) × NoHeader (x ∷ s)

open_header : (s : Bytes) → find_header (b'{' ∷ s) ≡ done (find_loop s 1 1)
unfolding find_header find_loop
open_header s = refl

HeaderOf-open : (s : Bytes) → HeaderOf (b'{' ∷ s) (find_header (b'{' ∷ s))
HeaderOf-open s = elim (find_loop-Finds s 1 1 (omega arith)) [
  | inl (m, e, some_m, c) ↦
      inr (inl (refl, (suc m, open_header s ∙ ap done (e ∙ omega arith), IsHeader-from s m c)))
  | inr (e, c) ↦ inr (inr (refl, open_header s ∙ ap done e, never_from s c))
]

-- For every payload: on no bytes `FindHeader` panics; on bytes that do not begin with an opening
-- brace it returns 0; and on bytes that do, the number of bytes up to the brace that closes it, the
-- first place where there are as many closing as opening braces, or 0 if there is none.
pub find_header_lem : (pd : Bytes) → HeaderOf pd (find_header pd)
unfolding find_header
find_header_lem [] = refl
find_header_lem (x ∷ s) = elim (Bool-cases (x == b'{')) [
  | inl opened ↦ (let e = (==_iff x b'{').0 opened in rw e (HeaderOf-open s))
  | inr other ↦ inl (other, rw other)
]
