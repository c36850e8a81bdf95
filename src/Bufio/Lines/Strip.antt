-- ===== src/Bufio/Lines/Strip.antt =====
-- What `ReadLine` drops at the end of a line.
use kratos_transport_rpc.Prelude.{
  ℕ, ◌-◌, ◌<◌, ◌≡◌, refl, ap, ◌∙◌, sym, ◌⊎◌, inl, inr, Option, ◌++◌, [], ◌∷◌, append-nil,
  append_assoc, Bytes, length, length-append, take, get_or, take-append, Lacks, Lacks-take,
  Lacks-get_or, split_last, take-append_le, get_or-append_last, get_or-append, ltb, ltb→lt, ltb→le,
  le→ltb, lt→ltb, ==_iff, ◌==◌, Bool-cases, true, false, ◌&&◌, arith,
}
use kratos_transport_rpc.Io.{IoError}
use kratos_transport_rpc.Bufio.Lines.{ends_with, strip_eol}
use kratos_transport_rpc.Bufio.Lines.Slice.{Ends}

-- What ends a line and is dropped: "\n", "\r\n", or nothing before the end of the input.
abbrev pub IsEol : Bytes → Type 0
IsEol eol = (eol ≡ []) ⊎ (eol ≡ b'\n' ∷ []) ⊎ (eol ≡ b'\r' ∷ b'\n' ∷ [])

pub ends_with-split :
    (c : ℕ) (line : Bytes)
    → ends_with c line ≡ true
    → line ≡ take (length line - 1) line ++ (c ∷ [])
ends_with-split c line h =
    let last : get_or line (length line - 1) 0 ≡ c = ground arith in
    split_last line (length line - 1) (ground arith)
    ∙ ap (λ x. take (length line - 1) line ++ (x ∷ [])) last

abbrev newline : Bytes
newline = b'\n' ∷ []

-- the test that decides whether "\r\n" goes
before_newline :
    (pre : Bytes)
    → (ltb 1 (length (pre ++ newline))
        && get_or (pre ++ newline) (length (pre ++ newline) - 2) 0 == b'\r')
      ≡ ends_with b'\r' pre
before_newline pre = elim (Bool-cases (ltb 0 (length pre))) [
  | inl long ↦
      let h = ltb→lt 0 (length pre) long in
      let n : length (pre ++ newline) - 2 ≡ length pre - 1 =
        omega (arith, length-append {0} pre newline) in
      rw (
        n,
        get_or-append pre newline (length pre - 1) 0 (omega arith),
        long,
        lt→ltb 1 (length (pre ++ newline)) (omega (arith, length-append {0} pre newline)),
      )
  | inr short ↦
      let h = ltb→le 0 (length pre) short in
      rw (short, le→ltb 1 (length (pre ++ newline)) (omega (arith, length-append {0} pre newline)))
]

ends_with-newline : (pre : Bytes) → ends_with b'\n' (pre ++ newline) ≡ true
ends_with-newline pre =
    let n : length (pre ++ newline) - 1 ≡ length pre =
      omega (arith, length-append {0} pre newline) in
    rw (
      n,
      get_or-append_last pre (length pre) b'\n' refl,
      lt→ltb 0 (length (pre ++ newline)) (omega (arith, length-append {0} pre newline)),
    )

pub strip_crlf :
    (pre : Bytes)
    → ends_with b'\r' pre ≡ true
    → strip_eol (pre ++ newline) ≡ take (length pre - 1) pre
unfolding strip_eol
strip_crlf pre h =
    let n : length (pre ++ newline) - 2 ≡ length pre - 1 =
      omega (arith, length-append {0} pre newline) in
    rw (ends_with-newline pre, before_newline pre, h, n)
      (take-append_le (length pre - 1) pre newline (omega arith))

strip_lf : (pre : Bytes) → ends_with b'\r' pre ≡ false → strip_eol (pre ++ newline) ≡ pre
unfolding strip_eol
strip_lf pre h =
    let n : length (pre ++ newline) - 1 ≡ length pre =
      omega (arith, length-append {0} pre newline) in
    rw (ends_with-newline pre, before_newline pre, h, n) (take-append pre newline)

-- `line` is what stays, and the end of line that goes.
pub record Strips (line : Bytes) : Type 0 where
  pub eol : Bytes
  pub split : line ≡ strip_eol line ++ eol
  pub is_eol : IsEol eol
  pub lacks : Lacks b'\n' (strip_eol line)

newline-Strips : (pre : Bytes) → Lacks b'\n' pre → Strips (pre ++ newline)
newline-Strips pre lacks = elim (Bool-cases (ends_with b'\r' pre)) [
  | inl cr ↦ record {
    eol = b'\r' ∷ newline;
    split =
        ap (λ l. l ++ newline) (ends_with-split b'\r' pre cr)
        ∙ append_assoc (take (length pre - 1) pre) (b'\r' ∷ []) newline
        ∙ ap (λ l. l ++ b'\r' ∷ newline) (sym (strip_crlf pre cr));
    is_eol = inr (inr refl);
    lacks = rw (strip_crlf pre cr) (Lacks-take b'\n' (length pre - 1) pre lacks);
  }
  | inr lf ↦ record {
    eol = newline;
    split = ap (λ l. l ++ newline) (sym (strip_lf pre lf));
    is_eol = inr (inl refl);
    lacks = rw (strip_lf pre lf) lacks;
  }
]

ends_with-false : (c : ℕ) (line : Bytes) → Lacks c line → ends_with c line ≡ false
ends_with-false c line lacks = elim (Bool-cases (ltb 0 (length line))) [
  | inr short ↦ rw short
  | inl long ↦ elim (Bool-cases (get_or line (length line - 1) 0 == c)) [
    | inr other ↦ rw (long, other)
    | inl same ↦ absurd (
        Lacks-get_or c line (length line - 1) lacks (omega (arith, ltb→lt 0 (length line) long))
          ((==_iff _ c).0 same))
  ]
]

strip-none : (line : Bytes) → Lacks b'\n' line → strip_eol line ≡ line
unfolding strip_eol
strip-none line lacks = rw (ends_with-false b'\n' line lacks)

plain-Strips : (line : Bytes) → Lacks b'\n' line → Strips line
plain-Strips line lacks = record {
  eol = [];
  split = sym (append-nil _ ∙ strip-none line lacks);
  is_eol = inl refl;
  lacks = rw (strip-none line lacks) lacks;
}

pub Ends-Strips : (line : Bytes) (e : Option IoError) → Ends b'\n' line e → Strips line
Ends-Strips line e h = elim h [
  | inl (none_e, (pre, eq, lacks)) ↦ rw eq (newline-Strips pre lacks)
  | inr (some_e, lacks) ↦ plain-Strips line lacks
]

pub ends_with-pos : (c : ℕ) (line : Bytes) → ends_with c line ≡ true → 0 < length line
ends_with-pos c line h = ground arith
