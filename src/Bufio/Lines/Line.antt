-- ===== src/Bufio/Lines/Line.antt =====
-- What `ReadLine` returns, and that it never rewinds past the start of the buffer.
use kratos_transport_rpc.Prelude.{
  length-eq-nil, ◌+◌, ◌-◌, ◌≤◌, ◌<◌, ◌≡◌, ◌≢◌, refl, ap, ◌∙◌, sym, inl, inr, Option, none, some,
  ◌++◌, [], append_assoc, Bytes, length, slice, take, Lacks, Lacks-take, take-append_le, ltb,
  ltb→lt, ltb→le, ==_iff, ==_false, Bool, Bool-cases, true, false, arith,
}
use kratos_transport_rpc.Io.{IoError, Outcome, done, Read, IsSource, is_buffer_full}
use kratos_transport_rpc.Bufio.Reader.{Reader, buffered, avail}
use kratos_transport_rpc.Bufio.Reader.Fill.{IsValid, stream}
use kratos_transport_rpc.Bufio.Reader.Advance.{advanced, avail-advanced, stream-advanced}
use kratos_transport_rpc.Bufio.Lines.{ends_with, strip_eol, finish_line, read_line, LineResult}
use kratos_transport_rpc.Bufio.Lines.Strip.{IsEol, Ends-Strips, ends_with-pos}
use kratos_transport_rpc.Bufio.Lines.Slice.{Cuts, Ends, read_slice_lem, taken-avail}

-- `call` returns a line, whether it is only the first part of one, and an error. The line and
-- what ends it are taken from the stream.
pub record Reads {S : Type 0} (rest : S → Bytes) (b : Reader S) (call : LineResult S) : Type 0 where
  pub line : Bytes
  pub is_prefix : Bool
  pub error : Option IoError
  pub after : Reader S
  pub eol : Bytes
  pub returns : call ≡ done (line, is_prefix, error, after)
  pub valid : IsValid after
  pub same_size : length after.buf ≡ length b.buf
  pub taken : stream rest b ≡ line ++ (eol ++ stream rest after)
  pub is_eol : IsEol eol
  pub lacks : Lacks b'\n' line
  pub never_both : (error ≢ none) → (line ≡ []) × (eol ≡ []) × (is_prefix ≡ false)
  pub whole_prefix : is_prefix ≡ true → eol ≡ []

module _ {S : Type 0} where
  pub finish_plain :
      (line : Bytes) (e : Option IoError) (b : Reader S)
      → is_buffer_full e ≡ false
      → 0 < length line
      → finish_line line e b ≡ done (strip_eol line, false, none, b)
  unfolding finish_line
  finish_plain line e b h k = rw (h, ==_false (length line) 0 (omega arith))

  pub finish_empty :
      (line : Bytes) (e : Option IoError) (b : Reader S)
      → is_buffer_full e ≡ false
      → length line ≡ 0
      → finish_line line e b ≡ done ([], false, e, b)
  unfolding finish_line
  finish_empty line e b h k = rw (h, (==_iff (length line) 0).1 k)

  pub finish_prefix :
      (line : Bytes) (e : Option IoError) (b : Reader S)
      → is_buffer_full e ≡ true
      → ends_with b'\r' line ≡ false
      → finish_line line e b ≡ done (line, true, none, b)
  unfolding finish_line
  finish_prefix line e b h k = rw (h, k)

  pub finish_rewind :
      (line : Bytes) (e : Option IoError) (b : Reader S)
      → is_buffer_full e ≡ true
      → ends_with b'\r' line ≡ true
      → 0 < b.r
      → finish_line line e b
        ≡ done (take (length line - 1) line, true, none, record b { r = b.r - 1 })
  unfolding finish_line
  finish_rewind line e b h k p = rw (h, k, ==_false b.r 0 (omega arith))

not_full : (e : Option IoError) → e ≡ none → is_buffer_full e ≡ true → ⊥
not_full none h k = cc
not_full (some x) h k = cc

Lacks-of_full :
    (line : Bytes) (e : Option IoError)
    → Ends b'\n' line e
    → is_buffer_full e ≡ true
    → Lacks b'\n' line
Lacks-of_full line e h full = elim h [
  | inl (none_e, _) ↦ absurd (not_full e none_e full)
  | inr (some_e, lacks) ↦ lacks
]

module _ {S : Type 0} (rest : S → Bytes) {b : Reader S}
    {call : Outcome (Bytes × Option IoError × Reader S)} (c : Cuts rest b'\n' b call) where
  -- A '\r' that ends a full buffer goes back.
  Reads-rewind :
      is_buffer_full c.error ≡ true
      → ends_with b'\r' c.line ≡ true
      → Reads rest b (finish_line c.line c.error c.after)
  Reads-rewind full cr =
      let long : 0 < length c.line = ends_with-pos b'\r' c.line cr in
      let start = record c.after { r = c.after.r - length c.line } in
      let ok : IsValid start = omega (arith, c.valid) in
      let fits : length c.line ≤ buffered start = omega (arith, c.inside, c.valid) in
      let back : start.r + length c.line ≡ c.after.r = omega (arith, c.inside) in
      let whole : avail start ≡ c.line ++ avail c.after =
        avail-advanced start (length c.line) ok fits
        ∙ ap (λ k. slice c.after.buf start.r k ++ slice c.after.buf k c.after.w) back
        ∙ ap (λ l. l ++ avail c.after) c.behind in
      let keep : start.r + (length c.line - 1) ≡ c.after.r - 1 = omega (arith, c.inside) in
      let first : slice c.after.buf start.r (start.r + (length c.line - 1))
          ≡ take (length c.line - 1) c.line =
        sym (taken-avail start (length c.line - 1) ok (omega (arith, fits)))
        ∙ ap (take (length c.line - 1)) whole
        ∙ take-append_le (length c.line - 1) c.line (avail c.after) (omega arith) in
      record {
        line = take (length c.line - 1) c.line;
        is_prefix = true;
        error = none;
        after = record c.after { r = c.after.r - 1 };
        eol = [];
        returns = finish_rewind c.line c.error c.after full cr (omega (arith, c.inside));
        valid = omega (arith, c.valid);
        same_size = c.same_size;
        taken =
            c.taken
            ∙ sym (append_assoc c.line (avail c.after) (rest c.after.rd))
            ∙ ap (λ l. l ++ rest c.after.rd) (sym whole)
            ∙ stream-advanced start (length c.line - 1) ok (omega (arith, fits)) rest
            ∙ ap (λ l. l ++ stream rest (advanced (length c.line - 1) start)) first
            ∙ ap
                (λ k.
                  take (length c.line - 1) c.line
                  ++ (slice c.after.buf k c.after.w ++ rest c.after.rd))
                keep;
        is_eol = inl refl;
        lacks =
            Lacks-take b'\n' (length c.line - 1) c.line (Lacks-of_full c.line c.error c.ends full);
        never_both = λ h. absurd (h refl);
        whole_prefix = λ h. refl;
      }

  Reads-prefix :
      is_buffer_full c.error ≡ true
      → ends_with b'\r' c.line ≡ false
      → Reads rest b (finish_line c.line c.error c.after)
  Reads-prefix full plain = record {
    line = c.line;
    is_prefix = true;
    error = none;
    after = c.after;
    eol = [];
    returns = finish_prefix c.line c.error c.after full plain;
    valid = c.valid;
    same_size = c.same_size;
    taken = c.taken;
    is_eol = inl refl;
    lacks = Lacks-of_full c.line c.error c.ends full;
    never_both = λ h. absurd (h refl);
    whole_prefix = λ h. refl;
  }

  Reads-empty :
      is_buffer_full c.error ≡ false
      → length c.line ≡ 0
      → Reads rest b (finish_line c.line c.error c.after)
  Reads-empty partial z = record {
    line = [];
    is_prefix = false;
    error = c.error;
    after = c.after;
    eol = [];
    returns = finish_empty c.line c.error c.after partial z;
    valid = c.valid;
    same_size = c.same_size;
    taken = c.taken ∙ ap (λ l. l ++ stream rest c.after) (length-eq-nil c.line z);
    is_eol = inl refl;
    lacks = tt;
    never_both = λ h. (refl, refl, refl);
    whole_prefix = λ h. refl;
  }

  Reads-line :
      is_buffer_full c.error ≡ false
      → 0 < length c.line
      → Reads rest b (finish_line c.line c.error c.after)
  Reads-line partial long =
      let s = Ends-Strips c.line c.error c.ends in
      record {
        line = strip_eol c.line;
        is_prefix = false;
        error = none;
        after = c.after;
        eol = s.eol;
        returns = finish_plain c.line c.error c.after partial long;
        valid = c.valid;
        same_size = c.same_size;
        taken =
            c.taken
            ∙ ap (λ l. l ++ stream rest c.after) s.split
            ∙ append_assoc (strip_eol c.line) s.eol (stream rest c.after);
        is_eol = s.is_eol;
        lacks = s.lacks;
        never_both = λ h. absurd (h refl);
        whole_prefix = λ h. cc;
      }

  Reads-of_Cuts : Reads rest b (finish_line c.line c.error c.after)
  Reads-of_Cuts = elim (Bool-cases (is_buffer_full c.error)) [
    | inl full ↦ elim (Bool-cases (ends_with b'\r' c.line)) [
      | inl cr ↦ Reads-rewind full cr
      | inr plain ↦ Reads-prefix full plain
    ]
    | inr partial ↦ elim (Bool-cases (ltb 0 (length c.line))) [
      | inl long ↦ Reads-line partial (ltb→lt 0 (length c.line) long)
      | inr short ↦ Reads-empty partial (omega (arith, ltb→le 0 (length c.line) short))
    ]
  ]

-- On a valid reader `ReadLine` returns; the panic "tried to rewind past start of buffer" cannot
-- happen. The line has no '\n' and is taken from the stream with the "\n" or "\r\n" behind it, if
-- there is one; a first part of a line (isPrefix) is taken with nothing behind it; and with an
-- error there is no line.
pub read_line_lem :
    {S : Type 0} (read : Read S) (rest : S → Bytes) (src : IsSource read rest) (b : Reader S)
    → IsValid b
    → Reads rest b (read_line read b)
unfolding read_line
read_line_lem read rest src b v =
    let c = read_slice_lem read rest src b'\n' b v in rw c.returns (Reads-of_Cuts rest c)
