-- ===== src/Bufio/Reader/Byte.antt =====
-- `ReadByte`, `Read` and `Discard` against the stream.
use kratos_transport_rpc.Prelude.{
  ℕ, zero, suc, ◌+◌, ◌-◌, ◌≤◌, ◌<◌, ◌≡◌, refl, ap, ◌∙◌, sym, ◌⊎◌, inl, inr, Option, none, ◌++◌, [],
  ◌∷◌, Bytes, length, slice, take, drop, get_or, ◌==◌, ==_iff, Bool-cases, true, false, arith,
}
use kratos_transport_rpc.Io.{IoError, Outcome, done, Read, IsSource, is_none, ◌>>=◌}
use kratos_transport_rpc.Bufio.Reader.{Reader, buffered, clear, fill, read_byte_loop, read_byte}
use kratos_transport_rpc.Bufio.Reader.Fill.{IsValid, stream, fill-Filled}
use kratos_transport_rpc.Bufio.Reader.Extend.{Filled-buffered}
use kratos_transport_rpc.Bufio.Reader.Advance.{advanced, advanced-IsValid, stream-advanced}

-- The next byte of the stream and no error, or an error and the stream as before.
pub record ReadsByte {S : Type 0} (rest : S → Bytes) (b : Reader S)
    (call : Outcome (ℕ × Option IoError × Reader S)) : Type 0 where
  pub byte : ℕ
  pub error : Option IoError
  pub after : Reader S
  pub returns : call ≡ done (byte, error, after)
  pub valid : IsValid after
  pub same_size : length after.buf ≡ length b.buf
  pub byte_or_error :
      (error ≡ none) × (stream rest b ≡ byte ∷ stream rest after)
      ⊎ (is_none error ≡ false) × (stream rest after ≡ stream rest b)

take-one : (l : Bytes) (i : ℕ) → i < length l → take 1 (drop i l) ≡ get_or l i 0 ∷ []
take-one [] i h = absurd (omega arith)
take-one (x ∷ l) zero h = refl
take-one (x ∷ l) (suc i) h = take-one l i (omega arith)

slice-one : (l : Bytes) (i : ℕ) → i < length l → slice l i (i + 1) ≡ get_or l i 0 ∷ []
slice-one l i h =
    ap (λ (j : ℕ). take j (drop i l)) {x = i + 1 - i} {y = 1} (omega arith) ∙ take-one l i h

module _ {S : Type 0} (read : Read S) (rest : S → Bytes) (src : IsSource read rest) where
  pub byte-returns :
      (f : ℕ) (b : Reader S)
      → (b.r == b.w) ≡ false
      → read_byte_loop read (suc f) b ≡ done (get_or b.buf b.r 0, none, advanced 1 b)
  unfolding read_byte_loop
  byte-returns f b some_bytes = rw some_bytes

  pub byte-stream :
      (b : Reader S)
      → IsValid b
      → (b.r == b.w) ≡ false
      → (1 ≤ buffered b) × (stream rest b ≡ get_or b.buf b.r 0 ∷ stream rest (advanced 1 b))
  byte-stream b v some_bytes =
      let h : 1 ≤ buffered b = ground (arith, v.r_le) in
      (
        h,
        stream-advanced b 1 v h rest
            ∙ ap (λ l. l ++ stream rest (advanced 1 b)) (slice-one b.buf b.r (omega (arith, v))),
      )

  byte-taken :
      (f : ℕ) (b : Reader S)
      → IsValid b
      → (b.r == b.w) ≡ false
      → ReadsByte rest b (read_byte_loop read (suc f) b)
  byte-taken f b v some_bytes =
      let s = byte-stream b v some_bytes in
      record {
        byte = get_or b.buf b.r 0;
        error = none;
        after = advanced 1 b;
        returns = byte-returns f b some_bytes;
        valid = advanced-IsValid b 1 v s.0;
        same_size = refl;
        byte_or_error = inl (refl, s.1);
      }

  byte-failed :
      (f : ℕ) (b : Reader S)
      → IsValid b
      → (b.r == b.w) ≡ true
      → is_none b.err ≡ false
      → ReadsByte rest b (read_byte_loop read (suc f) b)
  unfolding read_byte_loop
  byte-failed f b v empty failed = record {
    byte = 0;
    error = b.err;
    after = clear b;
    returns = rw (empty, failed);
    valid = omega (arith, v);
    same_size = refl;
    byte_or_error = inr (failed, refl);
  }

  pub byte-step :
      (f : ℕ) (b : Reader S)
      → (b.r == b.w) ≡ true
      → is_none b.err ≡ true
      → read_byte_loop read (suc f) b ≡ (fill read b >>= read_byte_loop read f)
  unfolding read_byte_loop
  byte-step f b empty quiet = rw (empty, quiet)

  byte_end :
      (b : Reader S)
      → IsValid b
      → {k : ℕ} → (k < buffered b) ⊎ (is_none b.err ≡ false)
      → ReadsByte rest b (read_byte_loop read 1 b)
  byte_end b v h = elim (Bool-cases (b.r == b.w)) [
    | inr some_bytes ↦ byte-taken 0 b v some_bytes
    | inl empty ↦ byte-failed 0 b v empty (elim h [
      | inl more ↦ absurd (omega (arith, (==_iff b.r b.w).0 empty))
      | inr failed ↦ failed
    ])
  ]

  -- On a valid reader `ReadByte` returns, after one call of `fill` at most: the next byte of the
  -- stream, which it takes, or an error and the stream as before.
  pub read_byte_lem : (b : Reader S) → IsValid b → ReadsByte rest b (read_byte read b)
  unfolding read_byte
  read_byte_lem b v = elim (Bool-cases (b.r == b.w)) [
    | inr some_bytes ↦ byte-taken 1 b v some_bytes
    | inl empty ↦ elim (Bool-cases (is_none b.err)) [
      | inr failed ↦ byte-failed 1 b v empty failed
      | inl quiet ↦
          let none_there : buffered b ≡ 0 = omega (arith, (==_iff b.r b.w).0 empty) in
          let (b1, eq1, fl) = fill-Filled read rest src b v (omega (arith, v)) in
          let r = byte_end b1 fl.valid (Filled-buffered rest v fl) in
          record {
            byte = r.byte;
            error = r.error;
            after = r.after;
            returns =
                byte-step 1 b empty quiet ∙ ap (λ m. m >>= read_byte_loop read 1) eq1 ∙ r.returns;
            valid = r.valid;
            same_size = r.same_size ∙ fl.same_size;
            byte_or_error = elim r.byte_or_error [
              | inl (e, t) ↦ inl (e, sym fl.same_stream ∙ t)
              | inr (e, t) ↦ inr (e, t ∙ fl.same_stream)
            ];
          }
    ]
  ]
