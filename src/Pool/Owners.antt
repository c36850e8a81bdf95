-- ===== src/Pool/Owners.antt =====
-- A buffer is free or has one owner.
use kratos_transport_rpc.Prelude.{
  ℕ, suc, ◌+◌, ◌-◌, ◌*◌, ◌≤◌, ◌<◌, ◌≡◌, refl, ap, sym, subst, ◌∙◌, inl, inr, Option-cases, none,
  some, List, [], ◌∷◌, ◌++◌, append_assoc, length, length-append, arith,
}
use kratos_transport_rpc.Io.{done, panics, hangs, ◌>>=◌}
use kratos_transport_rpc.Pool.{
  Pool, next_of, set_next, chunks, grow_num, grow, pop_free, take_free, get_from, get, put,
}
use kratos_transport_rpc.Pool.{new_pool, init}
use kratos_transport_rpc.Pool.Addresses.{
  Distinct, AllBelow, upto, Distinct-out, Fresh-right, Distinct-in, Distinct-block,
}
use kratos_transport_rpc.Pool.Chain.{
  Chain, length-set_next, next_of-set_next, Chain-set_next, Chain-chunks,
}

-- `held` have been handed out, `free` are the free list, and no buffer occurs twice.
pub record Owned (p : Pool) (held : List ℕ) : Type 0 where
  pub free : List ℕ
  pub chain : Chain p.buffers p.free free
  pub distinct : Distinct (held ++ free)
  pub below : AllBelow (length p.buffers) held
  pub some_num : 0 < p.num

-- The calls of the pool's clients: `Get`, and `Put` of a buffer that is held.
pub data Step : Pool → List ℕ → Pool → List ℕ → Type 0 where
  took : {p p1 : Pool} {held : List ℕ} {a : ℕ} → get p ≡ done (a, p1) → Step p held p1 (a ∷ held)
  gave : {p : Pool} (a : ℕ) (xs ys : List ℕ) → Step p (xs ++ a ∷ ys) (put a p) (xs ++ ys)

-- What can happen to a pool that `NewPool` has made.
pub data Run (num size : ℕ) : Pool → List ℕ → Type 0 where
  made : {p : Pool} → new_pool num size ≡ done p → Run num size p []
  then_step :
      {p p1 : Pool} {held held1 : List ℕ}
      → Run num size p held
      → Step p held p1 held1
      → Run num size p1 held1

AllBelow-le : (n m : ℕ) (l : List ℕ) → n ≤ m → AllBelow n l → AllBelow m l
AllBelow-le n m [] h b = tt
AllBelow-le n m (x ∷ l) h (lt, b) = (omega arith, AllBelow-le n m l h b)

AllBelow-middle : (n a : ℕ) (l r : List ℕ) → AllBelow n (l ++ a ∷ r) → (a < n) × AllBelow n (l ++ r)
AllBelow-middle n a [] r b = b
AllBelow-middle n a (x ∷ l) r (lt, b) = let (la, b1) = AllBelow-middle n a l r b in (la, (lt, b1))

put-Owned :
    (a : ℕ) (p : Pool) (xs ys : List ℕ) → Owned p (xs ++ a ∷ ys) → Owned (put a p) (xs ++ ys)
unfolding put
put-Owned a p xs ys h =
    let (lt, below) = AllBelow-middle (length p.buffers) a xs ys h.below in
    let apart : Distinct (a ∷ (xs ++ ys) ++ h.free) =
      subst (λ l. Distinct (a ∷ l)) (sym (append_assoc xs ys h.free))
        (Distinct-out a xs (ys ++ h.free)
          (subst Distinct (append_assoc xs (a ∷ ys) h.free) h.distinct)) in
    let size = length-set_next p.buffers a p.free in
    record {
      free = a ∷ h.free;
      chain = (
        refl,
        omega (arith, size),
        subst (λ n. Chain (set_next p.buffers a p.free) n h.free)
            (sym (next_of-set_next p.buffers a p.free lt))
            (Chain-set_next p.buffers a p.free p.free h.free
              (Fresh-right a (xs ++ ys) h.free apart.0) h.chain),
      );
      distinct = Distinct-in a (xs ++ ys) h.free apart;
      below = AllBelow-le (length p.buffers) _ (xs ++ ys) (omega (arith, size)) below;
      some_num = h.some_num;
    }

pop_free-Owned :
    (p : Pool) (a : ℕ) (held l : List ℕ)
    → 0 < p.num
    → Chain p.buffers (some a) l
    → Distinct (held ++ l)
    → AllBelow (length p.buffers) held
    → Owned (pop_free p a).1 (a ∷ held)
unfolding pop_free
pop_free-Owned p a held [] some_num c d b = absurd cc
pop_free-Owned p a held (x ∷ l) some_num (e, lt, c) d b =
    let same : x ≡ a = ap (λ o. elim o [ none ↦ a | some y ↦ y ]) (sym e) in
    record {
      free = l;
      chain = subst (λ y. Chain p.buffers (next_of p.buffers y) l) same c;
      distinct = subst (λ y. Distinct (y ∷ held ++ l)) same (Distinct-out x held l d);
      below = (subst (λ y. y < length p.buffers) same lt, b);
      some_num = some_num;
    }

grow-Owned :
    (p : Pool) (held l : List ℕ)
    → 0 < p.num
    → Chain p.buffers none l
    → Distinct (held ++ l)
    → AllBelow (length p.buffers) held
    → (p1 : Pool) × (grow p ≡ done p1) × (p1.free ≡ some (length p.buffers)) × Owned p1 held
unfolding grow grow_num
grow-Owned p held (x ∷ l) some_num c d b = absurd cc
grow-Owned p held [] some_num c d b =
    let k = p.num - 1 in
    let positive : p.num ≡ suc k = omega arith in
    let cs = chunks (length p.buffers) p.arrays p.size 0 k in
    let p1 : Pool = record p {
      buffers = p.buffers ++ cs;
      arrays = p.arrays + 1;
      free = some (length p.buffers);
    } in
    (
      p1,
      ap (λ n. grow_num n p) positive,
      refl,
      record {
        free = upto (length p.buffers) k;
        chain = Chain-chunks p.buffers (length p.buffers) p.arrays p.size 0 k (omega arith);
        distinct = Distinct-block held (length p.buffers) k d b;
        below = AllBelow-le (length p.buffers) _ held (omega (arith, length-append p.buffers cs)) b;
        some_num = some_num;
      },
    )

get-Owned :
    (p : Pool) (held : List ℕ)
    → Owned p held
    → (a : ℕ) × (p1 : Pool) × (get p ≡ done (a, p1)) × Owned p1 (a ∷ held)
unfolding get get_from take_free
get-Owned p held h = elim (Option-cases p.free) [
  | inr (a, e) ↦ (
    a,
    (pop_free p a).1,
    ap (get_from p) e,
    pop_free-Owned p a held h.free h.some_num (rw e at h.chain) h.distinct h.below,
  )
  | inl e ↦
      let (p1, eq, first, h1) =
        grow-Owned p held h.free h.some_num (rw e at h.chain) h.distinct h.below in
      let a = length p.buffers in
      (
        a,
        (pop_free p1 a).1,
        ap (get_from p) e ∙ ap (λ m. m >>= λ q. take_free q q.free) eq ∙ ap (take_free p1) first,
        pop_free-Owned p1 a held h1.free h1.some_num (rw first at h1.chain) h1.distinct h1.below,
      )
]

made-Owned : (num size : ℕ) (p : Pool) → 0 < num → new_pool num size ≡ done p → Owned p []
unfolding new_pool init
made-Owned num size p some_num eq =
    let (p1, eq1, first, h) =
      grow-Owned
        (record { buffers = []; arrays = 0; free = none; max = num * size; num = num; size = size })
        [] [] some_num refl tt tt in
    subst (λ q. Owned q [])
      (ap (λ o. elim o [ done q ↦ q | panics x ↦ p1 | hangs ↦ p1 ]) (sym eq1 ∙ eq)) h

-- Whatever clients do with a pool of one buffer or more, `Get` and `Put` of buffers that are
-- held, in any order and also when the pool has to grow: no buffer is held twice, none that is
-- held is free, and `Get` returns a buffer that nobody holds.
pub Run-Owned :
    {num size : ℕ} {p : Pool} {held : List ℕ} → 0 < num → Run num size p held → Owned p held
Run-Owned {num} {size} {p} some_num (made eq) = made-Owned num size p some_num eq
Run-Owned some_num (then_step r (took {p} {p1} {held} {a} eq)) =
    let (a1, p2, eq1, h) = get-Owned p held (Run-Owned some_num r) in
    let same =
      ap (λ o. elim o [ done x ↦ x | panics x ↦ (a, p1) | hangs ↦ (a, p1) ]) (sym eq1 ∙ eq) in
    subst (λ x. Owned x.1 (x.0 ∷ held)) same h
Run-Owned some_num (then_step r (gave {p} a xs ys)) = put-Owned a p xs ys (Run-Owned some_num r)
