-- ===== src/Bufio/Reader/Fill.antt =====
-- The invariant of a Reader, the stream of bytes that it stands for, and what `fill` does to them.
use kratos_transport_rpc.Prelude.{
  ℕ, zero, suc, ◌+◌, ◌-◌, ◌≤◌, ◌<◌, ◌≡◌, refl, sym, ap, ap₂, ◌∙◌, ◌⊎◌, inl, inr, Option, none, some,
  [], ◌∷◌, ◌++◌, append-nil, append_assoc, Bytes, length, take, drop, slice, copy, length-append,
  length-copy, length-copy_at, length-slice, take-copy, take-copy_at, false, ltb, ltb→le,
  Bool-cases, lt→leb, arith,
}
use kratos_transport_rpc.Io.{IoError, no_progress, Outcome, done, Read, IsSource, is_none}
use kratos_transport_rpc.Bufio.Reader.{
  Reader, buffered, avail, slide, accept, after_read, try_fill, fill, max_consecutive_empty_reads,
}

pub record IsValid {S : Type 0} (b : Reader S) : Type 0 where
  pub r_le : b.r ≤ b.w
  pub w_le : b.w ≤ length b.buf
  pub has_room : 0 < length b.buf

pub length-avail : {S : Type 0} (b : Reader S) → IsValid b → length (avail b) ≡ buffered b
length-avail b v = length-slice b.buf b.r b.w v.w_le

avail_at : {S : Type 0} (b : Reader S) (k : ℕ) → b.r ≡ k → avail b ≡ take (b.w - k) (drop k b.buf)
avail_at b k e = ap (λ j. slice b.buf j b.w) e

pub avail_zero : {S : Type 0} (b : Reader S) → b.r ≡ 0 → avail b ≡ take b.w b.buf
avail_zero b e = avail_at b 0 e ∙ ap (λ j. take j b.buf) (omega arith)

module _ {S : Type 0} (rest : S → Bytes) where
  -- All the bytes that are still to be read through `b`.
  abbrev pub stream : Reader S → Bytes
  stream b = avail b ++ rest b.rd

  -- What a call of `fill` leaves: more bytes or an error, in the same stream.
  pub record Filled (b b' : Reader S) : Type 0 where
    pub valid : IsValid b'
    pub at_start : b'.r ≡ 0
    pub same_size : length b'.buf ≡ length b.buf
    pub same_stream : stream b' ≡ stream b
    pub more : Bytes
    pub grown : avail b' ≡ avail b ++ more
    pub progress : (0 < length more) ⊎ (is_none b'.err ≡ false)

-- What `fill` does first: the unread bytes move to the front.
record Slid {S : Type 0} (b b' : Reader S) : Type 0 where
  valid : IsValid b'
  at_start : b'.r ≡ 0
  w_eq : b'.w ≡ buffered b
  same_size : length b'.buf ≡ length b.buf
  same_avail : avail b' ≡ avail b
  same_rd : b'.rd ≡ b.rd

slide-Slid : {S : Type 0} (b : Reader S) → IsValid b → Slid b (slide b)
unfolding slide
slide-Slid b v = elim (Bool-cases (ltb 0 b.r)) [
  | inl moved ↦ rw moved (record {
    valid = omega (arith, length-copy b.buf (avail b));
    at_start = refl;
    w_eq = refl;
    same_size = length-copy b.buf (avail b);
    same_avail =
        avail_zero (record b { buf = copy b.buf (avail b); w = b.w - b.r; r = 0 }) refl
        ∙ ap (λ k. take k (copy b.buf (avail b))) (sym (length-avail b v))
        ∙ take-copy b.buf (avail b) (omega (arith, length-avail b v));
    same_rd = refl;
  })
  | inr stays ↦ rw stays (record {
    valid = v;
    at_start = omega (arith, ltb→le _ _ stays);
    w_eq = omega (arith, ltb→le _ _ stays);
    same_size = refl;
    same_avail = refl;
    same_rd = refl;
  })
]

module _ {S : Type 0} (read : Read S) (rest : S → Bytes) (src : IsSource read rest) where
  avail-accept :
      (b : Reader S) (p : Bytes) (s : S)
      → b.r ≡ 0
      → b.w + length p ≤ length b.buf
      → avail (accept b p s) ≡ avail b ++ p
  avail-accept b p s e h =
      avail_zero (accept b p s) e
      ∙ take-copy_at b.buf b.w (b.w + length p) p h refl
      ∙ ap (λ l. l ++ p) (sym (avail_zero b e))

  accept-IsValid :
      (b : Reader S) (p : Bytes) (s : S)
      → IsValid b
      → b.w + length p ≤ length b.buf
      → IsValid (accept b p s)
  accept-IsValid b p s v h = omega (arith, length-copy_at b.buf b.w p)

  -- The bytes of one call of `Read`, whatever becomes of the error.
  accept-Filled :
      (b : Reader S) (p : Bytes) (s : S) (x : Option IoError)
      → IsValid b
      → b.r ≡ 0
      → b.w + length p ≤ length b.buf
      → rest b.rd ≡ p ++ rest s
      → (0 < length p) ⊎ (is_none x ≡ false)
      → Filled rest b (record (accept b p s) { err = x })
  accept-Filled b p s x v e h q prog = record {
    valid = omega (arith, accept-IsValid b p s v h);
    at_start = e;
    same_size = length-copy_at b.buf b.w p;
    same_stream =
        ap (λ l. l ++ rest s) (avail-accept b p s e h)
        ∙ append_assoc (avail b) p (rest s)
        ∙ ap (λ l. avail b ++ l) (sym q);
    more = p;
    grown = avail-accept b p s e h;
    progress = prog;
  }

  -- `fill` after a call of `Read` that gave nothing.
  retry-Filled :
      (b b' : Reader S) (p : Bytes) (s : S)
      → b.r ≡ 0
      → b.w + length p ≤ length b.buf
      → length p ≡ 0
      → rest b.rd ≡ p ++ rest s
      → Filled rest (accept b p s) b'
      → Filled rest b b'
  retry-Filled b b' p s e h z q f = record {
    valid = f.valid;
    at_start = f.at_start;
    same_size = f.same_size ∙ length-copy_at b.buf b.w p;
    same_stream =
        f.same_stream
        ∙ ap (λ l. l ++ rest s) (avail-accept b p s e h)
        ∙ append_assoc (avail b) p (rest s)
        ∙ ap (λ l. avail b ++ l) (sym q);
    more = p ++ f.more;
    grown =
        f.grown ∙ ap (λ l. l ++ f.more) (avail-accept b p s e h) ∙ append_assoc (avail b) p f.more;
    progress = elim f.progress [
      | inl m ↦ inl (omega (arith, length-append {0} p f.more))
      | inr x ↦ inr x
    ];
  }

  abbrev Fills : (Reader S → Outcome (Reader S)) → Reader S → Type 0
  Fills f b = (b' : Reader S) × (f b ≡ done b') × Filled rest b b'

  after_read-Filled :
      (b : Reader S) (retry : Reader S → Outcome (Reader S)) (p : Bytes) (e : Option IoError)
      (s : S)
      → IsValid b
      → b.r ≡ 0
      → b.w + length p ≤ length b.buf
      → rest b.rd ≡ p ++ rest s
      → ((b1 : Reader S) → IsValid b1 → b1.r ≡ 0 → Fills retry b1)
      → Fills (λ b1. after_read b1 retry (some p, e, s)) b
  unfolding after_read
  after_read-Filled b retry p (some x) s v z h q ih = (
    record (accept b p s) { err = some x },
    refl,
    accept-Filled b p s (some x) v z h q (inr refl),
  )
  after_read-Filled b retry [] none s v z h q ih =
      let (b', eq, f) = ih (accept b [] s) (accept-IsValid b [] s v h) z in
      (b', eq, retry-Filled b b' [] s z h refl q f)
  after_read-Filled b retry (x ∷ p) none s v z h q ih =
      (accept b (x ∷ p) s, refl, accept-Filled b (x ∷ p) s b.err v z h q (inl (omega arith)))

  try_fill-Filled : (i : ℕ) (b : Reader S) → IsValid b → b.r ≡ 0 → Fills (try_fill read i) b
  unfolding try_fill
  try_fill-Filled zero b v e = (
    record b { err = some no_progress },
    refl,
    record {
      valid = omega arith;
      at_start = e;
      same_size = refl;
      same_stream = refl;
      more = [];
      grown = sym (append-nil _);
      progress = inr refl;
    },
  )
  try_fill-Filled (suc i) b v e =
      let g = src.gives b.rd (length b.buf - b.w) in
      let (b', eq, f) =
        after_read-Filled b (try_fill read i) g.bytes g.error g.next v e (omega (arith, g.fits))
          g.rest_eq (try_fill-Filled i) in
      (b', ap (after_read b (try_fill read i)) g.read_eq ∙ eq, f)

  -- A reader whose unread bytes do not fill its buffer: `fill` returns, and it brings more bytes
  -- or an error.
  pub fill-Filled :
      (b : Reader S)
      → IsValid b
      → buffered b < length b.buf
      → (b' : Reader S) × (fill read b ≡ done b') × Filled rest b b'
  unfolding fill
  fill-Filled b v h =
      let s = slide-Slid b v in
      let (b', eq, f) = try_fill-Filled max_consecutive_empty_reads (slide b) s.valid s.at_start in
      (
        b',
        rw (lt→leb (length (slide b).buf) (slide b).w (omega (arith, s.w_eq, s.same_size)), fill)
            eq,
        record {
          valid = f.valid;
          at_start = f.at_start;
          same_size = f.same_size ∙ s.same_size;
          same_stream = f.same_stream ∙ ap₂ (λ a d. a ++ rest d) s.same_avail s.same_rd;
          more = f.more;
          grown = f.grown ∙ ap (λ a. a ++ f.more) s.same_avail;
          progress = f.progress;
        },
      )
