-- ===== src/Pool/Chain.antt =====
-- The free list.
use kratos_transport_rpc.Prelude.{
  ℕ, zero, suc, ◌+◌, ◌*◌, ◌<◌, ◌≡◌, ◌≢◌, refl, ap, sym, subst, ◌∙◌, Option, none, some, List, [],
  ◌∷◌, ◌++◌, append_assoc, length, length-append, arith,
}
use kratos_transport_rpc.Pool.{Buffer, next_of, set_next, chunks}
use kratos_transport_rpc.Pool.Addresses.{Fresh, upto}

-- The free list from an address on.
abbrev pub Chain : List Buffer → Option ℕ → List ℕ → Type 0
Chain bs o [] = o ≡ none
Chain bs o (a ∷ l) = (o ≡ some a) × (a < length bs) × Chain bs (next_of bs a) l

pub length-set_next :
    (bs : List Buffer) (a : ℕ) (o : Option ℕ) → length (set_next bs a o) ≡ length bs
unfolding set_next
length-set_next [] a o = refl
length-set_next (b ∷ bs) zero o = refl
length-set_next (b ∷ bs) (suc a) o = ap suc (length-set_next bs a o)

pub next_of-set_next :
    (bs : List Buffer) (a : ℕ) (o : Option ℕ) → a < length bs → next_of (set_next bs a o) a ≡ o
unfolding next_of set_next
next_of-set_next [] a o h = absurd (omega arith)
next_of-set_next (b ∷ bs) zero o h = refl
next_of-set_next (b ∷ bs) (suc a) o h = next_of-set_next bs a o (omega arith)

next_of-other :
    (bs : List Buffer) (a x : ℕ) (o : Option ℕ) → a ≢ x → next_of (set_next bs a o) x ≡ next_of bs x
unfolding next_of set_next
next_of-other [] a x o h = refl
next_of-other (b ∷ bs) zero zero o h = absurd (h refl)
next_of-other (b ∷ bs) zero (suc x) o h = refl
next_of-other (b ∷ bs) (suc a) zero o h = refl
next_of-other (b ∷ bs) (suc a) (suc x) o h = next_of-other bs a x o (λ e. h (ap suc e))

-- A change of another buffer leaves the list as it is.
pub Chain-set_next :
    (bs : List Buffer) (a : ℕ) (r o : Option ℕ) (l : List ℕ)
    → Fresh a l
    → Chain bs o l
    → Chain (set_next bs a r) o l
Chain-set_next bs a r o [] f c = c
Chain-set_next bs a r o (x ∷ l) (ne, f) (e, lt, c) = (
  e,
  omega (arith, length-set_next bs a r),
  subst (λ n. Chain (set_next bs a r) n l) (sym (next_of-other bs a x r ne))
      (Chain-set_next bs a r (next_of bs x) l f c),
)

next_of-append : (bs cs : List Buffer) (i : ℕ) → next_of (bs ++ cs) (length bs + i) ≡ next_of cs i
unfolding next_of
next_of-append [] cs i = ap (next_of cs) (omega arith)
next_of-append (b ∷ bs) cs i =
    subst (λ k. next_of (b ∷ bs ++ cs) k ≡ next_of cs i) {x = suc (length bs + i)} (omega arith)
      (next_of-append bs cs i)

pub length-chunks : (base array size i k : ℕ) → length (chunks base array size i k) ≡ suc k
unfolding chunks
length-chunks base array size i zero = refl
length-chunks base array size i (suc k) = ap suc (length-chunks base array size (i + 1) k)

pub Chain-chunks :
    (bs : List Buffer) (base array size i k : ℕ)
    → length bs ≡ base + i
    → Chain (bs ++ chunks base array size i k) (some (length bs)) (upto (length bs) k)
unfolding chunks upto next_of
Chain-chunks bs base array size i zero e =
    let c = chunks base array size i zero in
    (
      refl,
      omega (arith, length-append bs c),
      ap (next_of (bs ++ c)) {x = length bs} {y = length bs + 0} (omega arith)
          ∙ next_of-append bs c 0,
    )
Chain-chunks bs base array size i (suc k) e =
    let b : Buffer = record {
      array = array;
      start = i * size;
      stop = (i + 1) * size;
      next = some (base + i + 1);
    } in
    let rest = chunks base array size (i + 1) k in
    let size1 : length (bs ++ b ∷ []) ≡ suc (length bs) =
      omega (arith, length-append bs (b ∷ [])) in
    let ih = Chain-chunks (bs ++ b ∷ []) base array size (i + 1) k (omega arith) in
    let ih1 = subst (λ n. Chain ((bs ++ b ∷ []) ++ rest) (some n) (upto n k)) size1 ih in
    let ih2 =
      subst (λ l. Chain l (some (suc (length bs))) (upto (suc (length bs)) k))
        (append_assoc bs (b ∷ []) rest) ih1 in
    let next : next_of (bs ++ b ∷ rest) (length bs) ≡ some (suc (length bs)) =
      ap (next_of (bs ++ b ∷ rest)) {x = length bs} {y = length bs + 0} (omega arith)
      ∙ next_of-append bs (b ∷ rest) 0
      ∙ ap some (omega arith) in
    (
      refl,
      omega (arith, length-append bs (b ∷ rest)),
      subst (λ n. Chain (bs ++ b ∷ rest) n (upto (suc (length bs)) k)) (sym next) ih2,
    )
