-- ===== src/Bufio/Lines/Whole.antt =====
-- A reader of a `strings.Reader`: its only error is EOF, and it gives all it has.
use kratos_transport_rpc.Prelude.{
  ℕ, zero, suc, ◌+◌, ◌-◌, ◌≤◌, ◌<◌, ◌≡◌, refl, ap, subst, ◌∙◌, ◌⊎◌, inl, inr, Option, Option-cases,
  none, some, [], ◌∷◌, ◌++◌, Bytes, length, take, drop, slice, index_byte, ==_false, leb, leb→lt,
  Bool-cases, arith,
}
use kratos_transport_rpc.Io.{IoError, eof, buffer_full, Outcome, done, is_none, ◌>>=◌}
use kratos_transport_rpc.Io.Memory.{string_read, string-IsSource}
use kratos_transport_rpc.Bufio.Reader.{Reader, buffered, avail, slide, after_read, try_fill, fill}
use kratos_transport_rpc.Bufio.Reader.Fill.{IsValid, stream, fill-Filled}
use kratos_transport_rpc.Bufio.Reader.Extend.{Enough, Enough-next}
use kratos_transport_rpc.Bufio.Reader.Advance.{advanced}
use kratos_transport_rpc.Bufio.Lines.{read_slice_loop}
use kratos_transport_rpc.Bufio.Lines.Slice.{found-step, error-step, full-step, fill-step}

-- A pending error is EOF, and then nothing is left.
abbrev pub Fed : Reader Bytes → Type 0
Fed b = (b.err ≡ none) ⊎ ((b.err ≡ some eof) × (b.rd ≡ []))

abbrev AllFed : Outcome (Reader Bytes) → Type 0
AllFed (done b) = Fed b
AllFed _ = Unit

after_read-Fed :
    (b : Reader Bytes) (retry : Reader Bytes → Outcome (Reader Bytes)) (s : Bytes) (k : ℕ)
    → b.err ≡ none
    → AllFed (after_read b retry (string_read s (suc k)))
unfolding after_read string_read
after_read-Fed b retry [] k quiet = inr (refl, refl)
after_read-Fed b retry (x ∷ s) k quiet = rw (==_false (suc (length s)) 0 (omega arith)) (inl quiet)

try_fill-Fed :
    (i : ℕ) (b : Reader Bytes)
    → b.err ≡ none
    → b.w < length b.buf
    → AllFed (try_fill string_read (suc i) b)
unfolding try_fill
try_fill-Fed i b quiet room =
    let k = length b.buf - b.w - 1 in
    let e : suc k ≡ length b.buf - b.w = omega arith in
    subst (λ j. AllFed (after_read b (try_fill string_read i) (string_read b.rd j))) e
      (after_read-Fed b (try_fill string_read i) b.rd k quiet)

slide-err : (b : Reader Bytes) → (slide b).err ≡ b.err
unfolding slide
slide-err b = ground arith

fill-Fed : (b : Reader Bytes) → b.err ≡ none → AllFed (fill string_read b)
unfolding fill
fill-Fed b quiet = elim (Bool-cases (leb (length (slide b).buf) (slide b).w)) [
  | inl full ↦ rw full tt
  | inr room ↦ rw room (
      try_fill-Fed 99 (slide b) (slide-err b ∙ quiet)
        (leb→lt (length (slide b).buf) (slide b).w room))
]

-- Why `ReadSlice` stops.
abbrev pub Stops : ℕ → Reader Bytes → Option IoError → Bytes → Type 0
Stops size after e line =
    (e ≡ none)
    ⊎ ((e ≡ some eof) × (stream (λ l. l) after ≡ []))
    ⊎ ((e ≡ some buffer_full) × (size ≤ length line))

-- `call` leaves the reader fed.
pub record Whole (size : ℕ) (call : Outcome (Bytes × Option IoError × Reader Bytes)) : Type 0 where
  pub line : Bytes
  pub error : Option IoError
  pub after : Reader Bytes
  pub returns : call ≡ done (line, error, after)
  pub fed : Fed after
  pub stops : Stops size after error line

pub read_slice_loop-Whole :
    (delim f : ℕ) (b : Reader Bytes)
    → IsValid b
    → Fed b
    → Enough (λ l. l) f (length b.buf) b
    → Whole (length b.buf) (read_slice_loop string_read f delim b)
read_slice_loop-Whole delim zero b v fed h = absurd (omega (arith, h.0))
read_slice_loop-Whole delim (suc f) b v fed h = elim (Option-cases (index_byte (avail b) delim)) [
  | inr (i, e) ↦ record {
    line = slice b.buf b.r (b.r + (i + 1));
    error = none;
    after = advanced (i + 1) b;
    returns = found-step string_read (λ l. l) string-IsSource delim f i b e;
    fed = fed;
    stops = inl refl;
  }
  | inl e ↦ elim fed [
    | inr (failed, over) ↦ record {
      line = avail b;
      error = b.err;
      after = record b { r = b.w; err = none };
      returns = error-step string_read (λ l. l) string-IsSource delim f b e (ap is_none failed);
      fed = inl refl;
      stops = inr (
          inl (
            failed,
            ap (λ (k : ℕ). take k (drop b.w b.buf) ++ b.rd) {x = b.w - b.w} {y = 0} (omega arith)
                ∙ over,
          ));
    }
    | inl quiet ↦ elim (Bool-cases (leb (length b.buf) (buffered b))) [
      | inl full ↦ record {
        line = b.buf;
        error = some buffer_full;
        after = record b { r = b.w };
        returns =
            full-step string_read (λ l. l) string-IsSource delim f b e (ap is_none quiet) full;
        fed = inl quiet;
        stops = inr (inr (refl, omega arith));
      }
      | inr room ↦
          let lt = leb→lt (length b.buf) (buffered b) room in
          let (b1, eq1, fl) = fill-Filled string_read (λ l. l) string-IsSource b v lt in
          let w = read_slice_loop-Whole delim f b1 fl.valid (subst AllFed eq1 (fill-Fed b quiet)) (
            rw fl.same_size (Enough-next (λ l. l) f (length b.buf) v fl lt (ap is_none quiet) h)) in
          record {
            line = w.line;
            error = w.error;
            after = w.after;
            returns =
                fill-step string_read (λ l. l) string-IsSource delim f b e (ap is_none quiet) room
                ∙ ap (λ m. m >>= read_slice_loop string_read f delim) eq1
                ∙ w.returns;
            fed = w.fed;
            stops = rw fl.same_size at w.stops;
          }
    ]
  ]
]
