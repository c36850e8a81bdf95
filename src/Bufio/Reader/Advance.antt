-- ===== src/Bufio/Reader/Advance.antt =====
-- Taking unread bytes: `b.r += k`, and the methods `Peek` and `Pop`.
use kratos_transport_rpc.Prelude.{
  ℕ, ◌+◌, ◌-◌, ◌≤◌, ◌<◌, ◌≡◌, ◌≢◌, refl, ap, ◌∙◌, sym, ◌⊎◌, inl, inr, Option, none, some, ◌++◌, [],
  append_assoc, Bytes, length, slice, take, drop, take-take-drop, drop-drop, length-slice, ltb,
  le→ltb, Bool-cases, ltb→lt, ltb→le, Option-cases, arith,
}
use kratos_transport_rpc.Prelude.Int.{pos}
use kratos_transport_rpc.Io.{IoError, buffer_full, done, Read, IsSource, ◌>>=◌}
use kratos_transport_rpc.Bufio.Reader.{
  Reader, buffered, avail, clear, fill_until, peeked, peek, pop,
}
use kratos_transport_rpc.Bufio.Reader.Fill.{IsValid, stream}
use kratos_transport_rpc.Bufio.Reader.Extend.{fill_until_lem}

-- The reader after `b.r += k`.
abbrev pub advanced : {S : Type 0} → ℕ → Reader S → Reader S
advanced k b = record b { r = b.r + k }

module _ {S : Type 0} (b : Reader S) (k : ℕ) (v : IsValid b) (h : k ≤ buffered b) where
  pub advanced-IsValid : IsValid (advanced k b)
  advanced-IsValid = omega arith

  -- The bytes that are taken come before the ones that stay.
  pub avail-advanced : avail b ≡ slice b.buf b.r (b.r + k) ++ avail (advanced k b)
  avail-advanced =
      sym (
        take-take-drop (b.r + k - b.r) (b.w - (b.r + k)) (b.w - b.r) (drop b.r b.buf) (omega arith))
      ∙ ap (λ l. slice b.buf b.r (b.r + k) ++ take (b.w - (b.r + k)) l)
          (drop-drop b.r (b.r + k - b.r) (b.r + k) b.buf (omega arith))

  pub length-taken : length (slice b.buf b.r (b.r + k)) ≡ k
  length-taken = omega (arith, length-slice b.buf b.r (b.r + k) (omega arith))

  pub stream-advanced :
      (rest : S → Bytes) → stream rest b ≡ slice b.buf b.r (b.r + k) ++ stream rest (advanced k b)
  stream-advanced rest =
      ap (λ l. l ++ rest b.rd) avail-advanced
      ∙ append_assoc (slice b.buf b.r (b.r + k)) (avail (advanced k b)) (rest b.rd)

-- All `n` bytes and no error, or fewer and an error.
abbrev pub AllOrError : ℕ → Bytes → Option IoError → Type 0
AllOrError n bytes e = (e ≡ none) × (length bytes ≡ n) ⊎ (e ≢ none) × (length bytes < n)

-- `Peek(n)` returns the first bytes of the stream, and takes nothing from it.
pub record Peeks {S : Type 0} (read : Read S) (rest : S → Bytes) (b : Reader S) (n : ℕ)
    : Type 0 where
  pub bytes : Bytes
  pub error : Option IoError
  pub after : Reader S
  pub returns : peek read (pos n) b ≡ done (bytes, error, after)
  pub valid : IsValid after
  pub same_size : length after.buf ≡ length b.buf
  pub same_stream : stream rest after ≡ stream rest b
  pub fits : length bytes ≤ buffered after
  pub first_bytes : bytes ≡ slice after.buf after.r (after.r + length bytes)
  pub all_or_error : AllOrError n bytes error

-- `Pop(n)` returns the next n bytes of the stream and takes them, or it returns an error and takes
-- nothing.
pub record Pops {S : Type 0} (read : Read S) (rest : S → Bytes) (b : Reader S) (n : ℕ)
    : Type 0 where
  pub bytes : Bytes
  pub error : Option IoError
  pub after : Reader S
  pub returns : pop read (pos n) b ≡ done (bytes, error, after)
  pub valid : IsValid after
  pub same_size : length after.buf ≡ length b.buf
  pub taken : stream rest b ≡ bytes ++ stream rest after
  pub all_or_nothing : (error ≡ none) × (length bytes ≡ n) ⊎ (error ≢ none) × (bytes ≡ [])

module _ {S : Type 0} (read : Read S) (rest : S → Bytes) (src : IsSource read rest) where
  pub peek-returns :
      (b b' : Reader S) (n : ℕ)
      → n ≤ length b.buf
      → fill_until read (n + 2) n b ≡ done b'
      → peek read (pos n) b ≡ done (peeked n b')
  unfolding peek
  peek-returns b b' n h eq =
      rw (le→ltb (length b.buf) n h) (ap (λ m. m >>= λ b1. done (peeked n b1)) eq)

  -- For a valid reader whose buffer has room for n bytes `Peek(n)` returns: n bytes and no error,
  -- or fewer and an error. They are the first bytes of the stream, and stay in it.
  pub peek_lem : (b : Reader S) (n : ℕ) → IsValid b → n ≤ length b.buf → Peeks read rest b n
  peek_lem b n v h =
      let (b', eq, ext, stop) =
        fill_until_lem read rest src (n + 2) n b v h (omega arith, inl (omega arith)) in
      let returns = peek-returns b b' n h eq in
      elim (Bool-cases (ltb (buffered b') n)) [
        | inl short ↦
            let size = length-taken b' (buffered b') ext.valid (omega arith) in
            record {
              bytes = slice b'.buf b'.r (b'.r + buffered b');
              error = some (elim b'.err [ none ↦ buffer_full | some e ↦ e ]);
              after = clear b';
              returns = rw short at returns;
              valid = omega (arith, ext.valid);
              same_size = ext.same_size;
              same_stream = ext.same_stream;
              fits = omega (arith, size);
              first_bytes = ap (λ k. slice b'.buf b'.r (b'.r + k)) (sym size);
              all_or_error = inr (cc, omega (arith, size, ltb→lt (buffered b') n short));
            }
        | inr enough ↦
            let size = length-taken b' n ext.valid (ltb→le (buffered b') n enough) in
            record {
              bytes = slice b'.buf b'.r (b'.r + n);
              error = none;
              after = b';
              returns = rw enough at returns;
              valid = ext.valid;
              same_size = ext.same_size;
              same_stream = ext.same_stream;
              fits = omega (arith, size, ltb→le (buffered b') n enough);
              first_bytes = ap (λ k. slice b'.buf b'.r (b'.r + k)) (sym size);
              all_or_error = inl (refl, size);
            }
      ]

  pub pop-ok :
      (b b' : Reader S) (n : ℕ) (bytes : Bytes)
      → peek read (pos n) b ≡ done (bytes, none, b')
      → pop read (pos n) b ≡ done (bytes, none, advanced n b')
  unfolding pop
  pop-ok b b' n bytes eq = rw eq

  pop-error :
      (b b' : Reader S) (n : ℕ) (bytes : Bytes) (x : IoError)
      → peek read (pos n) b ≡ done (bytes, some x, b')
      → pop read (pos n) b ≡ done ([], some x, b')
  unfolding pop
  pop-error b b' n bytes x eq = rw eq

  -- For a valid reader whose buffer has room for n bytes `Pop(n)` returns: the next n bytes, which
  -- leave the stream, and no error; or an error, and the stream is as before.
  pub pop_lem : (b : Reader S) (n : ℕ) → IsValid b → n ≤ length b.buf → Pops read rest b n
  pop_lem b n v h =
      let p = peek_lem b n v h in
      elim p.all_or_error [
        | inl (fine, size) ↦ record {
          bytes = p.bytes;
          error = none;
          after = advanced n p.after;
          returns = pop-ok b p.after n p.bytes (rw fine at p.returns);
          valid = advanced-IsValid p.after n p.valid (omega (arith, p.fits, size));
          same_size = p.same_size;
          taken =
              sym p.same_stream
              ∙ stream-advanced p.after n p.valid (omega (arith, p.fits, size)) rest
              ∙ ap (λ l. l ++ stream rest (advanced n p.after))
                  (ap (λ k. slice p.after.buf p.after.r (p.after.r + k)) (sym size)
                    ∙ sym p.first_bytes);
          all_or_nothing = inl (refl, size);
        }
        | inr (failed, size) ↦ elim (Option-cases p.error) [
          | inl e ↦ absurd (failed e)
          | inr (x, e) ↦ record {
            bytes = [];
            error = some x;
            after = p.after;
            returns = pop-error b p.after n p.bytes x (rw e at p.returns);
            valid = p.valid;
            same_size = p.same_size;
            taken = sym p.same_stream;
            all_or_nothing = inr (cc, refl);
          }
        ]
      ]
