-- ===== src/Bufio/Reader/Reliable.antt =====
-- A source that fails only at its end: `Peek` and `Pop` then fail only if the stream is too short.
use kratos_transport_rpc.Prelude.{
  ℕ, zero, suc, ◌+◌, ◌-◌, ◌≤◌, ◌<◌, ◌≡◌, refl, ap, ◌∙◌, sym, ◌⊎◌, inl, inr, Option, none, some,
  ◌++◌, [], ◌∷◌, Bytes, length, slice, length-append, length-copy_at, get_or, ◌==◌, ==_iff,
  ==_false, ltb, le→ltb, Bool-cases, leb, leb→lt, true, false, arith,
}
use kratos_transport_rpc.Prelude.Int.{pos}
use kratos_transport_rpc.Io.{IoError, Outcome, done, panics, hangs, Read, IsSource, is_none, ◌>>=◌}
use kratos_transport_rpc.Bufio.Reader.{
  Reader, buffered, avail, slide, accept, after_read, try_fill, fill, fill_until, read_byte,
  read_byte_loop, pop, max_consecutive_empty_reads,
}
use kratos_transport_rpc.Bufio.Reader.Fill.{IsValid, stream, length-avail, fill-Filled}
use kratos_transport_rpc.Bufio.Reader.Extend.{fill_until_lem, Filled-buffered}
use kratos_transport_rpc.Bufio.Reader.Byte.{byte-returns, byte-stream, byte-step}
use kratos_transport_rpc.Bufio.Reader.Advance.{
  peek-returns, advanced, advanced-IsValid, stream-advanced, length-taken, pop-ok,
}

-- `Read` with room for a byte reports an error only with the last bytes, and gives none
-- only at the end.
pub record IsReliable {S : Type 0} (read : Read S) (rest : S → Bytes) : Type 0 where
  pub error_at_end : (s : S) (k : ℕ) → is_none (read s k).1 ≡ false → rest (read s k).2 ≡ []
  pub empty_at_end : (s : S) (k : ℕ) → 0 < k → (read s k).0 ≡ some [] → rest (read s k).2 ≡ []

-- Only the end of the source leaves an error pending.
abbrev pub Settled : {S : Type 0} → (S → Bytes) → Reader S → Type 0
Settled rest b = is_none b.err ≡ false → rest b.rd ≡ []

module _ {S : Type 0} (read : Read S) (rest : S → Bytes) (rel : IsReliable read rest) where
  abbrev AllSettled : Outcome (Reader S) → Type 0
  AllSettled (done b) = Settled rest b
  AllSettled _ = Unit

  after_read-Settled :
      (b : Reader S) (retry : Reader S → Outcome (Reader S)) (o : Option Bytes) (e : Option IoError)
      (s : S)
      → is_none b.err ≡ true
      → (is_none e ≡ false → rest s ≡ [])
      → (o ≡ some [] → rest s ≡ [])
      → (rest s ≡ [] → AllSettled (retry (accept b [] s)))
      → AllSettled (after_read b retry (o, e, s))
  unfolding after_read
  after_read-Settled b retry none e s quiet err_end empty_end ih = tt
  after_read-Settled b retry (some p) (some x) s quiet err_end empty_end ih = λ _. err_end refl
  after_read-Settled b retry (some []) none s quiet err_end empty_end ih = ih (empty_end refl)
  after_read-Settled b retry (some (x ∷ p)) none s quiet err_end empty_end ih = λ failed. cc

  try_fill-Settled :
      (i : ℕ) (b : Reader S)
      → is_none b.err ≡ true
      → b.w < length b.buf
      → (i ≡ 0 → rest b.rd ≡ [])
      → AllSettled (try_fill read i b)
  unfolding try_fill
  try_fill-Settled zero b quiet room end = λ _. end refl
  try_fill-Settled (suc i) b quiet room end =
      let k = length b.buf - b.w in
      let (o, e, s) = read b.rd k in
      after_read-Settled b (try_fill read i) o e s quiet (rel.error_at_end b.rd k)
        (rel.empty_at_end b.rd k (omega arith))
        (λ end1.
          try_fill-Settled i (accept b [] s) quiet (omega (arith, length-copy_at {0} b.buf b.w []))
            (λ _. end1))

  slide-quiet : (b : Reader S) → is_none b.err ≡ true → is_none (slide b).err ≡ true
  unfolding slide
  slide-quiet b quiet = ground arith

  fill-Settled : (b : Reader S) → is_none b.err ≡ true → AllSettled (fill read b)
  unfolding fill
  fill-Settled b quiet = elim (Bool-cases (leb (length (slide b).buf) (slide b).w)) [
    | inl full ↦ rw full tt
    | inr room ↦ rw room (
        try_fill-Settled max_consecutive_empty_reads (slide b) (slide-quiet b quiet)
          (leb→lt (length (slide b).buf) (slide b).w room) (λ z. absurd (omega arith)))
  ]

  bind-Settled :
      (m : Outcome (Reader S)) (f : Reader S → Outcome (Reader S))
      → AllSettled m
      → ((b : Reader S) → Settled rest b → AllSettled (f b))
      → AllSettled (m >>= f)
  bind-Settled (done b) f h k = k b h
  bind-Settled (panics p) f h k = tt
  bind-Settled hangs f h k = tt

  fill_until-Settled :
      (f n : ℕ) (b : Reader S) → Settled rest b → AllSettled (fill_until read f n b)
  unfolding fill_until
  fill_until-Settled zero n b h = tt
  fill_until-Settled (suc f) n b h = elim (Bool-cases (ltb (buffered b) n)) [
    | inr enough ↦ rw enough h
    | inl short ↦ elim (Bool-cases (is_none b.err)) [
      | inr failed ↦ rw (short, failed) h
      | inl quiet ↦
          rw (short, quiet)
            (bind-Settled (fill read b) (fill_until read f n) (fill-Settled b quiet)
              (fill_until-Settled f n))
    ]
  ]

-- `Pop(n)` takes the next n bytes.
pub record PopsAll {S : Type 0} (read : Read S) (rest : S → Bytes) (b : Reader S) (n : ℕ)
    : Type 0 where
  pub bytes : Bytes
  pub after : Reader S
  pub returns : pop read (pos n) b ≡ done (bytes, none, after)
  pub valid : IsValid after
  pub settled : Settled rest after
  pub same_size : length after.buf ≡ length b.buf
  pub size : length bytes ≡ n
  pub taken : stream rest b ≡ bytes ++ stream rest after

-- `ReadByte` takes the next byte.
pub record TakesByte {S : Type 0} (rest : S → Bytes) (b : Reader S)
    (call : Outcome (ℕ × Option IoError × Reader S)) : Type 0 where
  pub byte : ℕ
  pub after : Reader S
  pub returns : call ≡ done (byte, none, after)
  pub valid : IsValid after
  pub settled : Settled rest after
  pub same_size : length after.buf ≡ length b.buf
  pub taken : stream rest b ≡ byte ∷ stream rest after

module _ {S : Type 0} (read : Read S) (rest : S → Bytes) (src : IsSource read rest)
    (rel : IsReliable read rest) where
  there :
      (b : Reader S) (n : ℕ)
      → IsValid b
      → Settled rest b
      → n ≤ length (stream rest b)
      → (n ≤ buffered b) ⊎ (is_none b.err ≡ false)
      → n ≤ buffered b
  there b n v ok enough stop = elim stop [
    | inl got ↦ got
    | inr failed ↦
        omega
          (arith, length-append {0} (avail b) (rest b.rd), ap length (ok failed), length-avail b v)
  ]

  -- With a source that fails only at its end, on a valid reader, for n at most the buffer's size:
  -- `Pop(n)` takes the next n bytes, without an error, if the stream has so many.
  pub pop_all :
      (b : Reader S) (n : ℕ)
      → IsValid b
      → Settled rest b
      → n ≤ length b.buf
      → n ≤ length (stream rest b)
      → PopsAll read rest b n
  pop_all b n v ok h enough =
      let (b', eq, ext, stop) =
        fill_until_lem read rest src (n + 2) n b v h (omega arith, inl (omega arith)) in
      let ok' : Settled rest b' = rw eq at (fill_until-Settled read rest rel (n + 2) n b ok) in
      let got = there b' n ext.valid ok' (omega (arith, enough, ap length ext.same_stream)) stop in
      record {
        bytes = slice b'.buf b'.r (b'.r + n);
        after = advanced n b';
        returns =
            pop-ok read rest src b b' n (slice b'.buf b'.r (b'.r + n))
              (rw (le→ltb (buffered b') n got) at (peek-returns read rest src b b' n h eq));
        valid = advanced-IsValid b' n ext.valid got;
        settled = ok';
        same_size = ext.same_size;
        size = length-taken b' n ext.valid got;
        taken = sym ext.same_stream ∙ stream-advanced b' n ext.valid got rest;
      }

  byte-there :
      (f : ℕ) (b : Reader S)
      → IsValid b
      → Settled rest b
      → (b.r == b.w) ≡ false
      → TakesByte rest b (read_byte_loop read (suc f) b)
  byte-there f b v ok some_bytes =
      let t = byte-stream read rest src b v some_bytes in
      record {
        byte = get_or b.buf b.r 0;
        after = advanced 1 b;
        returns = byte-returns read rest src f b some_bytes;
        valid = advanced-IsValid b 1 v t.0;
        settled = ok;
        same_size = refl;
        taken = t.1;
      }

  -- `ReadByte` takes the next byte, without an error, if there is one.
  pub read_byte_all :
      (b : Reader S)
      → IsValid b
      → Settled rest b
      → 0 < length (stream rest b)
      → TakesByte rest b (read_byte read b)
  unfolding read_byte
  read_byte_all b v ok enough = elim (Bool-cases (b.r == b.w)) [
    | inr some_bytes ↦ byte-there 1 b v ok some_bytes
    | inl empty ↦
        let none_there : buffered b ≡ 0 = omega (arith, (==_iff b.r b.w).0 empty) in
        elim (Bool-cases (is_none b.err)) [
          | inr failed ↦ absurd (omega (arith, there b 1 v ok enough (inr failed)))
          | inl quiet ↦
              let (b1, eq1, fl) = fill-Filled read rest src b v (omega (arith, v)) in
              let ok1 : Settled rest b1 = rw eq1 at (fill-Settled read rest rel b quiet) in
              let got =
                there b1 1 fl.valid ok1 (omega (arith, enough, ap length fl.same_stream))
                  (elim (Filled-buffered rest v fl) [
                    | inl m ↦ inl (omega arith)
                    | inr x ↦ inr x
                  ]) in
              let t = byte-there 0 b1 fl.valid ok1 (==_false b1.r b1.w (omega (arith, got))) in
              record {
                byte = t.byte;
                after = t.after;
                returns =
                    byte-step read rest src 1 b empty quiet
                    ∙ ap (λ m. m >>= read_byte_loop read 1) eq1
                    ∙ t.returns;
                valid = t.valid;
                settled = t.settled;
                same_size = t.same_size ∙ fl.same_size;
                taken = sym fl.same_stream ∙ t.taken;
              }
        ]
  ]
