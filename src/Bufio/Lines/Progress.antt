-- ===== src/Bufio/Lines/Progress.antt =====
-- `ReadLine` on a string: it takes bytes or returns an error.
use kratos_transport_rpc.Prelude.{
  ◌+◌, ◌-◌, ◌≤◌, ◌<◌, ◌≡◌, refl, ap, sym, subst, ◌∙◌, ◌⊎◌, inl, inr, Option, some, [], ◌++◌, ◌∷◌,
  Bytes, length, length-append, length-take, ltb, ltb→lt, ltb→le, ◌==◌, Bool, Bool-cases, false,
  arith, ℕ,
}
use kratos_transport_rpc.Io.{IoError, done, is_none, buffer_full, is_buffer_full}
use kratos_transport_rpc.Io.Memory.{string_read, string-IsSource}
use kratos_transport_rpc.Bufio.Reader.{Reader}
use kratos_transport_rpc.Bufio.Reader.Fill.{stream}
use kratos_transport_rpc.Bufio.Lines.{ends_with, finish_line, read_line, LineResult}
use kratos_transport_rpc.Bufio.Lines.Slice.{Ends}
use kratos_transport_rpc.Bufio.Lines.Line.{read_line_lem, finish_plain, finish_empty}
use kratos_transport_rpc.Bufio.Lines.Whole.{Fed, Stops}
use kratos_transport_rpc.Bufio.Lines.Exact.{Holds, both}

-- The call leaves the reader fed, and it has an error, a line that is not empty, or a shorter rest.
abbrev Moves : Bytes → LineResult Bytes → Type 0
Moves s (done (line, more, e, b)) =
    Fed b × ((is_none e ≡ false) ⊎ (0 < length line) ⊎ (length (stream (λ l. l) b) < length s))
Moves s _ = Unit

module _ (size : ℕ) (s : Bytes) (large : 2 ≤ size) where
  full-Moves :
      (line : Bytes) (b : Reader Bytes)
      → Fed b
      → size ≤ length line
      → Moves s (finish_line line (some buffer_full) b)
  unfolding finish_line
  full-Moves line b fed long = elim (Bool-cases (ends_with b'\r' line)) [
    | inr plain ↦ rw plain (fed, inr (inl (omega arith)))
    | inl cr ↦ elim (Bool-cases (b.r == 0)) [
      | inl first ↦ rw (cr, first) tt
      | inr later ↦
          rw (cr, later) (fed, inr (inl (omega (arith, length-take (length line - 1) line))))
    ]
  ]

  rest-Moves :
      (line : Bytes) (e : Option IoError) (b : Reader Bytes)
      → Fed b
      → is_buffer_full e ≡ false
      → (is_none e ≡ false) ⊎ (0 < length line)
      → length s ≡ length line + length (stream (λ l. l) b)
      → Moves s (finish_line line e b)
  rest-Moves line e b fed partial moved size_eq = elim (Bool-cases (ltb 0 (length line))) [
    | inl long ↦
        let h : 0 < length line = ltb→lt 0 (length line) long in
        subst (Moves s) (sym (finish_plain line e b partial h)) (fed, inr (inr (omega arith)))
    | inr short ↦
        let z : length line ≡ 0 = omega (arith, ltb→le 0 (length line) short) in
        subst (Moves s) (sym (finish_empty line e b partial z))
          (elim moved [ inl failed ↦ (fed, inl failed) | inr some_bytes ↦ absurd (omega arith) ])
  ]

  finish-Moves :
      (line : Bytes) (e : Option IoError) (b : Reader Bytes)
      → Fed b
      → Stops size b e line
      → Ends b'\n' line e
      → length s ≡ length line + length (stream (λ l. l) b)
      → Moves s (finish_line line e b)
  finish-Moves line e b fed stops ends size_eq = elim stops [
    | inl fine ↦ elim ends [
      | inl (_, (pre, cut, _)) ↦
          rest-Moves line e b fed (ap is_buffer_full fine)
            (inr (omega (arith, ap length cut, length-append {0} pre (b'\n' ∷ [])))) size_eq
      | inr (failed, _) ↦ absurd (failed fine)
    ]
    | inr (inl (over, _)) ↦
        rest-Moves line e b fed (ap is_buffer_full over) (inl (ap is_none over)) size_eq
    | inr (inr (full, long)) ↦
        subst (λ x. Moves s (finish_line line x b)) (sym full) (full-Moves line b fed long)
  ]

-- A line from a string, the reader behind it, and that it is an error or leaves less of the string.
pub record Steps (size : ℕ) (s : Bytes) (b : Reader Bytes) : Type 0 where
  pub line : Bytes
  pub is_prefix : Bool
  pub error : Option IoError
  pub after : Reader Bytes
  pub left : Bytes
  pub returns : read_line string_read b ≡ done (line, is_prefix, error, after)
  pub holds : Holds size left after
  pub le : length left ≤ length s
  pub moved : (is_none error ≡ false) ⊎ (length left < length s)

pub read_line-Steps :
    (size : ℕ) (s : Bytes) (b : Reader Bytes) → 2 ≤ size → Holds size s b → Steps size s b
unfolding read_line
read_line-Steps size s b large h =
    let (line, e, b1, returns, v, fed, sz, taken, stops, ends) = both size b'\n' s b h in
    let r = read_line_lem string_read (λ l. l) string-IsSource b h.valid in
    let split : length s ≡ length line + length (stream (λ l. l) b1) =
      ap length (sym h.stream_eq ∙ taken) ∙ length-append {0} line (stream (λ l. l) b1) in
    let same : finish_line line e b1 ≡ done (r.line, r.is_prefix, r.error, r.after) =
      rw returns at r.returns in
    let moves : Moves s (done (r.line, r.is_prefix, r.error, r.after)) =
      subst (Moves s) same (finish-Moves size s large line e b1 fed stops ends split) in
    let behind : Bytes = stream (λ l. l) r.after in
    let parts : length s ≡ length r.line + (length r.eol + length behind) =
      ap length (sym h.stream_eq ∙ r.taken)
      ∙ length-append {0} r.line (r.eol ++ behind)
      ∙ ap (λ k. length r.line + k) (length-append {0} r.eol behind) in
    record {
      line = r.line;
      is_prefix = r.is_prefix;
      error = r.error;
      after = r.after;
      left = stream (λ l. l) r.after;
      returns = r.returns;
      holds = record {
        valid = r.valid;
        fed = moves.0;
        size_eq = r.same_size ∙ h.size_eq;
        stream_eq = refl;
      };
      le = omega arith;
      moved = elim moves.1 [
        | inl failed ↦ inl failed
        | inr (inl some_bytes) ↦ inr (omega arith)
        | inr (inr less) ↦ inr less
      ];
    }
