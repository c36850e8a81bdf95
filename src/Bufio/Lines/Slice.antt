-- ===== src/Bufio/Lines/Slice.antt =====
-- What `ReadSlice` returns, and that it returns.
use kratos_transport_rpc.Prelude.{
  ℕ, zero, suc, ◌+◌, ◌-◌, ◌≤◌, ◌≡◌, ◌≢◌, refl, ap, ◌∙◌, sym, subst, ◌⊎◌, inl, inr, Option, none,
  some, ◌++◌, [], ◌∷◌, Bytes, length, slice, take, drop, take-append, take_all, index_byte, Lacks,
  Found, index_byte-Found, index_byte-none, leb, leb→le, leb→lt, Bool-cases, Option-cases, true,
  false, arith,
}
use kratos_transport_rpc.Io.{
  IoError, buffer_full, Outcome, done, Read, IsSource, is_none, ◌>>=◌, ne_none,
}
use kratos_transport_rpc.Bufio.Reader.{Reader, buffered, avail, fill}
use kratos_transport_rpc.Bufio.Reader.Fill.{
  IsValid, stream, Filled, fill-Filled, length-avail, avail_zero,
}
use kratos_transport_rpc.Bufio.Reader.Extend.{Enough, Enough-next}
use kratos_transport_rpc.Bufio.Reader.Advance.{
  advanced, advanced-IsValid, avail-advanced, length-taken, stream-advanced,
}
use kratos_transport_rpc.Bufio.Lines.{read_slice_loop, read_slice}

pub taken-avail :
    {S : Type 0} (b : Reader S) (k : ℕ)
    → IsValid b
    → k ≤ buffered b
    → take k (avail b) ≡ slice b.buf b.r (b.r + k)
taken-avail b k v h =
    ap (take k) (avail-advanced b k v h)
    ∙ ap (λ j. take j (slice b.buf b.r (b.r + k) ++ avail (advanced k b)))
        (sym (length-taken b k v h))
    ∙ take-append (slice b.buf b.r (b.r + k)) (avail (advanced k b))

avail_full : {S : Type 0} (b : Reader S) → IsValid b → length b.buf ≤ buffered b → avail b ≡ b.buf
avail_full b v h = avail_zero b (omega arith) ∙ take_all b.w b.buf (omega arith)

-- The line ends in its first delimiter and there is no error, or there is an error and no
-- delimiter.
abbrev pub Ends : ℕ → Bytes → Option IoError → Type 0
Ends delim line e =
    (e ≡ none) × ((pre : Bytes) × (line ≡ pre ++ (delim ∷ [])) × Lacks delim pre)
    ⊎ (e ≢ none) × Lacks delim line

-- `call` returns a line that it takes from the stream of `b`. The line stands in the buffer just
-- before the position r.
pub record Cuts {S : Type 0} (rest : S → Bytes) (delim : ℕ) (b : Reader S)
    (call : Outcome (Bytes × Option IoError × Reader S)) : Type 0 where
  pub line : Bytes
  pub error : Option IoError
  pub after : Reader S
  pub returns : call ≡ done (line, error, after)
  pub valid : IsValid after
  pub same_size : length after.buf ≡ length b.buf
  pub taken : stream rest b ≡ line ++ stream rest after
  pub inside : length line ≤ after.r
  pub behind : slice after.buf (after.r - length line) after.r ≡ line
  pub ends : Ends delim line error

module _ {S : Type 0} (rest : S → Bytes) (delim : ℕ) (b : Reader S) (v : IsValid b) where
  -- all unread bytes go, with the error `x` and whatever error is left pending
  Cuts-all :
      (x : IoError) (left : Option IoError)
      → Lacks delim (avail b)
      → Cuts rest delim b (done (avail b, some x, record b { r = b.w; err = left }))
  Cuts-all x left lacks = record {
    line = avail b;
    error = some x;
    after = record b { r = b.w; err = left };
    returns = refl;
    valid = omega arith;
    same_size = refl;
    taken =
        ap (λ (k : ℕ). avail b ++ (take k (drop b.w b.buf) ++ rest b.rd)) {x = 0} {y = b.w - b.w}
          (omega arith);
    inside = omega (arith, length-avail b v);
    behind = ap (λ k. slice b.buf k b.w) (omega (arith, length-avail b v));
    ends = inr (cc, lacks);
  }

  Cuts-Found :
      (i : ℕ)
      → Found delim (avail b) i
      → Cuts rest delim b (done (slice b.buf b.r (b.r + (i + 1)), none, advanced (i + 1) b))
  Cuts-Found i f =
      let h : i + 1 ≤ buffered b = omega (arith, f.inside, length-avail b v) in
      let size = length-taken b (i + 1) v h in
      record {
        line = slice b.buf b.r (b.r + (i + 1));
        error = none;
        after = advanced (i + 1) b;
        returns = refl;
        valid = advanced-IsValid b (i + 1) v h;
        same_size = refl;
        taken = stream-advanced b (i + 1) v h rest;
        inside = omega (arith, size);
        behind = ap (λ k. slice b.buf k (b.r + (i + 1))) (omega (arith, size));
        ends = inl (
          refl,
          (
            take i (avail b),
            sym (taken-avail b (i + 1) v h)
                ∙ ap (λ (k : ℕ). take k (avail b)) {x = i + 1} {y = suc i} (omega arith)
                ∙ f.through,
            f.before,
          ),
        );
      }

module _ {S : Type 0} (read : Read S) (rest : S → Bytes) (src : IsSource read rest)
    (delim : ℕ) where
  pub found-step :
      (f i : ℕ) (b : Reader S)
      → index_byte (avail b) delim ≡ some i
      → read_slice_loop read (suc f) delim b
        ≡ done (slice b.buf b.r (b.r + (i + 1)), none, advanced (i + 1) b)
  unfolding read_slice_loop
  found-step f i b e = rw (e, read_slice_loop)

  pub error-step :
      (f : ℕ) (b : Reader S)
      → index_byte (avail b) delim ≡ none
      → is_none b.err ≡ false
      → read_slice_loop read (suc f) delim b
        ≡ done (avail b, b.err, record b { r = b.w; err = none })
  unfolding read_slice_loop
  error-step f b e failed = rw (e, failed, read_slice_loop)

  pub full-step :
      (f : ℕ) (b : Reader S)
      → index_byte (avail b) delim ≡ none
      → is_none b.err ≡ true
      → leb (length b.buf) (buffered b) ≡ true
      → read_slice_loop read (suc f) delim b ≡ done (b.buf, some buffer_full, record b { r = b.w })
  unfolding read_slice_loop
  full-step f b e quiet full = rw (e, quiet, full, read_slice_loop)

  pub fill-step :
      (f : ℕ) (b : Reader S)
      → index_byte (avail b) delim ≡ none
      → is_none b.err ≡ true
      → leb (length b.buf) (buffered b) ≡ false
      → read_slice_loop read (suc f) delim b ≡ (fill read b >>= read_slice_loop read f delim)
  unfolding read_slice_loop
  fill-step f b e quiet room = rw (e, quiet, room, read_slice_loop)

  -- A round of the loop that calls `fill`, and what the later rounds return.
  Cuts-fill :
      (f : ℕ) {b b1 : Reader S}
      → Filled rest b b1
      → read_slice_loop read (suc f) delim b ≡ read_slice_loop read f delim b1
      → Cuts rest delim b1 (read_slice_loop read f delim b1)
      → Cuts rest delim b (read_slice_loop read (suc f) delim b)
  Cuts-fill f fl step c = record {
    line = c.line;
    error = c.error;
    after = c.after;
    returns = step ∙ c.returns;
    valid = c.valid;
    same_size = c.same_size ∙ fl.same_size;
    taken = sym fl.same_stream ∙ c.taken;
    inside = c.inside;
    behind = c.behind;
    ends = c.ends;
  }

  read_slice_loop-Cuts :
      (f : ℕ) (b : Reader S)
      → IsValid b
      → Enough rest f (length b.buf) b
      → Cuts rest delim b (read_slice_loop read f delim b)
  read_slice_loop-Cuts zero b v h = absurd (omega (arith, h.0))
  read_slice_loop-Cuts (suc f) b v h = elim (Option-cases (index_byte (avail b) delim)) [
    | inr (i, e) ↦
        rw (found-step f i b e) (Cuts-Found rest delim b v i (index_byte-Found (avail b) delim i e))
    | inl e ↦
        let lacks = index_byte-none (avail b) delim e in
        elim (Bool-cases (is_none b.err)) [
          | inr failed ↦
              let (x, ex) = ne_none b.err failed in
              rw (error-step f b e failed) (
                subst (λ o. Cuts rest delim b (done (avail b, o, record b { r = b.w; err = none })))
                  (sym ex) (Cuts-all rest delim b v x none lacks))
          | inl quiet ↦ elim (Bool-cases (leb (length b.buf) (buffered b))) [
            | inl full ↦ rw (full-step f b e quiet full) (
                subst (λ l. Cuts rest delim b (done (l, some buffer_full, record b { r = b.w })))
                  (avail_full b v (leb→le (length b.buf) (buffered b) full))
                  (Cuts-all rest delim b v buffer_full b.err lacks))
            | inr room ↦
                let lt = leb→lt (length b.buf) (buffered b) room in
                let (b1, eq1, fl) = fill-Filled read rest src b v lt in
                Cuts-fill f fl
                  (fill-step f b e quiet room ∙ ap (λ m. m >>= read_slice_loop read f delim) eq1)
                  (read_slice_loop-Cuts f b1 fl.valid
                    (rw fl.same_size (Enough-next rest f (length b.buf) v fl lt quiet h)))
          ]
        ]
  ]

  -- On a valid reader `ReadSlice` returns, whatever its source gives: its loop needs at most one
  -- round more than the buffer has bytes, and one for an error. The line is taken from the front
  -- of the stream, and err is nil exactly if the line ends in delim, which it then holds nowhere
  -- else.
  pub read_slice_lem : (b : Reader S) → IsValid b → Cuts rest delim b (read_slice read delim b)
  unfolding read_slice
  read_slice_lem b v = read_slice_loop-Cuts (length b.buf + 2) b v (omega arith, inl (omega arith))
