-- ===== src/Bufio/Reader/Extend.antt =====
-- What repeated calls of `fill` keep, and the loop of `Peek`.
use kratos_transport_rpc.Prelude.{
  ℕ, zero, suc, ◌+◌, ◌≤◌, ◌<◌, ◌≡◌, refl, ap, ◌∙◌, sym, ◌⊎◌, inl, inr, ◌++◌, [], append-nil,
  append_assoc, Bytes, length, length-append, ltb, Bool-cases, ltb→lt, ltb→le, true, false, arith,
}
use kratos_transport_rpc.Io.{done, Read, IsSource, is_none, ◌>>=◌}
use kratos_transport_rpc.Bufio.Reader.{Reader, buffered, avail, fill, fill_until}
use kratos_transport_rpc.Bufio.Reader.Fill.{IsValid, stream, Filled, fill-Filled, length-avail}

module _ {S : Type 0} (rest : S → Bytes) where
  -- `b'` has the unread bytes of `b` and perhaps more, in the same stream.
  pub record Extends (b b' : Reader S) : Type 0 where
    pub valid : IsValid b'
    pub same_size : length b'.buf ≡ length b.buf
    pub same_stream : stream rest b' ≡ stream rest b
    pub more : Bytes
    pub grown : avail b' ≡ avail b ++ more

  pub Extends-refl : (b : Reader S) → IsValid b → Extends b b
  Extends-refl b v = record {
    valid = v;
    same_size = refl;
    same_stream = refl;
    more = [];
    grown = sym (append-nil _);
  }

  pub Extends-of_Filled : {b b' : Reader S} → Filled rest b b' → Extends b b'
  Extends-of_Filled f = record {
    valid = f.valid;
    same_size = f.same_size;
    same_stream = f.same_stream;
    more = f.more;
    grown = f.grown;
  }

  pub Extends-trans : {a b c : Reader S} → Extends a b → Extends b c → Extends a c
  Extends-trans {a} {b} {c} f g = record {
    valid = g.valid;
    same_size = g.same_size ∙ f.same_size;
    same_stream = g.same_stream ∙ f.same_stream;
    more = f.more ++ g.more;
    grown = g.grown ∙ ap (λ l. l ++ g.more) f.grown ∙ append_assoc (avail a) f.more g.more;
  }

  -- `fill` either adds to the unread bytes or leaves an error.
  pub Filled-buffered :
      {b b' : Reader S}
      → IsValid b
      → Filled rest b b'
      → (buffered b < buffered b') ⊎ (is_none b'.err ≡ false)
  Filled-buffered {b} {b'} v f = elim f.progress [
    | inl m ↦ inl (
        omega (
          arith,
          length-avail b v,
          length-avail b' f.valid,
          ap length f.grown,
          length-append {0} (avail b) f.more,
        ))
    | inr x ↦ inr x
  ]

  -- Enough rounds for a loop that calls `fill` while fewer than `n` bytes are there and no error
  -- is pending.
  abbrev pub Enough : ℕ → ℕ → Reader S → Type 0
  Enough f n b = (0 < f) × ((n + 1 < buffered b + f) ⊎ (is_none b.err ≡ false))

  pub Enough-next :
      {b b' : Reader S} (f n : ℕ)
      → IsValid b
      → Filled rest b b'
      → buffered b < n
      → is_none b.err ≡ true
      → Enough (suc f) n b
      → Enough f n b'
  Enough-next {b} {b'} f n v fl short quiet h =
      let many : n + 1 < buffered b + suc f = elim h.1 [ inl k ↦ k | inr k ↦ cc ] in
      (omega arith, elim (Filled-buffered v fl) [ inl m ↦ inl (omega arith) | inr x ↦ inr x ])

module _ {S : Type 0} (read : Read S) (rest : S → Bytes) (src : IsSource read rest) where
  fill_until-step :
      (f n : ℕ) (b : Reader S)
      → ltb (buffered b) n ≡ true
      → is_none b.err ≡ true
      → fill_until read (suc f) n b ≡ (fill read b >>= fill_until read f n)
  unfolding fill_until
  fill_until-step f n b short quiet = rw (short, quiet)

  -- The loop of `Peek` ends with `n` bytes there or with an error.
  pub fill_until_lem :
      (f n : ℕ) (b : Reader S)
      → IsValid b
      → n ≤ length b.buf
      → Enough rest f n b
      → (b' : Reader S) × (fill_until read f n b ≡ done b')
        × Extends rest b b'
        × ((n ≤ buffered b') ⊎ (is_none b'.err ≡ false))
  unfolding fill_until
  fill_until_lem zero n b v h e = absurd (omega (arith, e.0))
  fill_until_lem (suc f) n b v h e = elim (Bool-cases (ltb (buffered b) n)) [
    | inr enough ↦ (b, rw enough, Extends-refl rest b v, inl (ltb→le _ _ enough))
    | inl short ↦ elim (Bool-cases (is_none b.err)) [
      | inr failed ↦ (b, rw (short, failed), Extends-refl rest b v, inr failed)
      | inl quiet ↦
          let lt = ltb→lt (buffered b) n short in
          let (b1, eq1, fl) = fill-Filled read rest src b v (omega arith) in
          let (b', eq, ext, stop) =
            fill_until_lem f n b1 fl.valid (omega (arith, fl.same_size))
              (Enough-next rest f n v fl lt quiet e) in
          (
            b',
            fill_until-step f n b short quiet ∙ ap (λ m. m >>= fill_until read f n) eq1 ∙ eq,
            Extends-trans rest (Extends-of_Filled rest fl) ext,
            stop,
          )
    ]
  ]
