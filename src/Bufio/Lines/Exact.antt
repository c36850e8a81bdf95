-- ===== src/Bufio/Lines/Exact.antt =====
-- What `ReadSlice` and `ReadLine` return from a string that is known.
use kratos_transport_rpc.Prelude.{
  ℕ, ◌+◌, ◌-◌, ◌≤◌, ◌<◌, ◌≡◌, refl, ap, ap₂, sym, subst, ◌∙◌, inl, inr, Option, none, some, [], ◌∷◌,
  ◌++◌, append_assoc, append-nil, Bytes, length, length-append, take, take-append, drop, get_or,
  get_or-append_last, Lacks, Lacks-append, ==_false, lt→ltb, true, false, arith,
}
use kratos_transport_rpc.Io.{IoError, eof, Outcome, done}
use kratos_transport_rpc.Io.Memory.{string_read, string-IsSource}
use kratos_transport_rpc.Bufio.Reader.{Reader}
use kratos_transport_rpc.Bufio.Reader.Fill.{IsValid, stream}
use kratos_transport_rpc.Bufio.Lines.{ends_with, finish_line, read_slice, read_line}
use kratos_transport_rpc.Bufio.Lines.Slice.{Ends, read_slice_lem}
use kratos_transport_rpc.Bufio.Lines.Strip.{strip_crlf}
use kratos_transport_rpc.Bufio.Lines.Whole.{Fed, Stops, read_slice_loop-Whole}

first_longer :
    (c : ℕ) (l x pre next : Bytes) → Lacks c l → l ++ x ≡ pre ++ c ∷ next → length l ≤ length pre
first_longer c [] x pre next lacks e = omega arith
first_longer c (y ∷ l) x [] next (ne, lacks) e = absurd (ne (ap (λ m. get_or m 0 0) e))
first_longer c (y ∷ l) x (z ∷ pre) next (ne, lacks) e =
    omega (arith, first_longer c l x pre next lacks (ap (drop 1) e))

first_unique :
    (c : ℕ) (u v x y : Bytes) → Lacks c u → Lacks c v → u ++ c ∷ x ≡ v ++ c ∷ y → (u ≡ v) × (x ≡ y)
first_unique c [] [] x y hu hv e = (refl, ap (drop 1) e)
first_unique c [] (b ∷ v) x y hu (ne, hv) e = absurd (ne (sym (ap (λ m. get_or m 0 0) e)))
first_unique c (a ∷ u) [] x y (ne, hu) hv e = absurd (ne (ap (λ m. get_or m 0 0) e))
first_unique c (a ∷ u) (b ∷ v) x y (na, hu) (nb, hv) e =
    let (p, q) = first_unique c u v x y hu hv (ap (drop 1) e) in
    (ap₂ ◌∷◌ (ap (λ m. get_or m 0 0) e) p, q)

-- A reader of a string that has `s` left, with a buffer of `size` bytes.
pub record Holds (size : ℕ) (s : Bytes) (b : Reader Bytes) : Type 0 where
  pub valid : IsValid b
  pub fed : Fed b
  pub size_eq : length b.buf ≡ size
  pub stream_eq : stream (λ l. l) b ≡ s

outcome_or : {A : Type 0} → A → Outcome A → A
outcome_or d (done a) = a
outcome_or d _ = d

module _ (size delim : ℕ) where
  -- Both descriptions of a call, in one.
  abbrev pub Both : Reader Bytes → Type 0
  Both b =
      (line : Bytes) × (e : Option IoError) × (b1 : Reader Bytes) × (read_slice string_read delim b
        ≡ done (line, e, b1))
      × IsValid b1
      × Fed b1
      × (length b1.buf ≡ size)
      × (stream (λ l. l) b ≡ line ++ stream (λ l. l) b1)
      × Stops size b1 e line
      × Ends delim line e

  pub both : (s : Bytes) (b : Reader Bytes) → Holds size s b → Both b
  unfolding read_slice outcome_or
  both s b h =
      let c = read_slice_lem string_read (λ l. l) string-IsSource delim b h.valid in
      let w =
        read_slice_loop-Whole delim (length b.buf + 2) b h.valid h.fed
          (omega arith, inl (omega arith)) in
      let same = ap (outcome_or (w.line, w.error, w.after)) (sym w.returns ∙ c.returns) in
      (
        c.line,
        c.error,
        c.after,
        c.returns,
        c.valid,
        subst (λ x. Fed x.2) same w.fed,
        c.same_size ∙ h.size_eq,
        c.taken,
        subst (λ n. Stops n c.after c.error c.line) h.size_eq
            (subst (λ x. Stops (length b.buf) x.2 x.1 x.0) same w.stops),
        c.ends,
      )

  -- A string with the delimiter, within the size of the buffer.
  pub read_slice_found :
      (pre next : Bytes) (b : Reader Bytes)
      → Holds size (pre ++ delim ∷ next) b
      → Lacks delim pre
      → length pre < size
      → (b1 : Reader Bytes) × (read_slice string_read delim b
          ≡ done (pre ++ (delim ∷ []), none, b1))
        × Holds size next b1
  read_slice_found pre next b h lacks short =
      let (line, e, b1, returns, v, fed, sz, taken, stops, ends) = both (pre ++ delim ∷ next) b h in
      let eq : line ++ stream (λ l. l) b1 ≡ pre ++ delim ∷ next = sym taken ∙ h.stream_eq in
      elim ends [
        | inl (fine, (pre1, cut, lacks1)) ↦
            let (p, q) = first_unique delim pre1 pre (stream (λ l. l) b1) next lacks1 lacks (
              sym (append_assoc pre1 (delim ∷ []) (stream (λ l. l) b1))
              ∙ ap (λ l. l ++ stream (λ l. l) b1) (sym cut)
              ∙ eq) in
            (
              b1,
              returns ∙ ap₂ (λ l o. done (l, o, b1)) (cut ∙ ap (λ l. l ++ (delim ∷ [])) p) fine,
              record { valid = v; fed = fed; size_eq = sz; stream_eq = q },
            )
        | inr (failed, lacks1) ↦
            let le = first_longer delim line (stream (λ l. l) b1) pre next lacks1 eq in
            absurd (elim stops [
              | inl fine ↦ failed fine
              | inr (inl (over, nothing)) ↦ omega (
                arith,
                ap length eq,
                length-append {0} line (stream (λ l. l) b1),
                ap length nothing,
                length-append {0} pre (delim ∷ next),
              )
              | inr (inr (full, long)) ↦ omega arith
            ])
      ]

  -- A string without it, shorter than the buffer, at the end of the input.
  pub read_slice_rest :
      (s : Bytes) (b : Reader Bytes)
      → Holds size s b
      → Lacks delim s
      → length s < size
      → (b1 : Reader Bytes) × (read_slice string_read delim b ≡ done (s, some eof, b1))
        × Holds size [] b1
  read_slice_rest s b h lacks short =
      let (line, e, b1, returns, v, fed, sz, taken, stops, ends) = both s b h in
      let rest : Bytes = stream (λ l. l) b1 in
      let eq : line ++ rest ≡ s = sym taken ∙ h.stream_eq in
      elim ends [
        | inl (fine, (pre1, cut, lacks1)) ↦
            let le = first_longer delim s [] pre1 rest lacks (
              append-nil s
              ∙ sym eq
              ∙ ap (λ l. l ++ rest) cut
              ∙ append_assoc pre1 (delim ∷ []) rest) in
            absurd (
              omega (
                arith,
                ap length eq,
                length-append {0} line rest,
                ap length cut,
                length-append {0} pre1 (delim ∷ []),
              ))
        | inr (failed, lacks1) ↦ elim stops [
          | inl fine ↦ absurd (failed fine)
          | inr (inl (over, nothing)) ↦ (
            b1,
            returns
                ∙ ap₂ (λ l o. done (l, o, b1))
                    (sym (append-nil line) ∙ ap (λ l. line ++ l) (sym nothing) ∙ eq) over,
            record { valid = v; fed = fed; size_eq = sz; stream_eq = nothing },
          )
          | inr (inr (full, long)) ↦
              absurd (omega (arith, ap length eq, length-append {0} line rest))
        ]
      ]

finish_crlf :
    (line : Bytes) (b : Reader Bytes)
    → finish_line ((line ++ (b'\r' ∷ [])) ++ (b'\n' ∷ [])) none b ≡ done (line, false, none, b)
unfolding finish_line
finish_crlf line b =
    let pre : Bytes = line ++ (b'\r' ∷ []) in
    let size : length pre ≡ length line + 1 = length-append {0} line (b'\r' ∷ []) in
    let last : length pre - 1 ≡ length line = omega arith in
    let cr : ends_with b'\r' pre ≡ true = rw (
      last,
      get_or-append_last line (length line) b'\r' refl,
      lt→ltb 0 (length pre) (omega arith),
    ) in
    rw
      (==_false (length (pre ++ (b'\n' ∷ []))) 0
        (omega (arith, length-append {0} pre (b'\n' ∷ []))))
      (ap (λ l. done (l, false, none, b))
        (strip_crlf pre cr ∙ ap (λ n. take n pre) last ∙ take-append line (b'\r' ∷ [])))

-- `ReadLine` of a line that ends in "\r\n", within the size of the buffer.
pub read_line_crlf :
    (size : ℕ) (line next : Bytes) (b : Reader Bytes)
    → Holds size (line ++ b'\r' ∷ b'\n' ∷ next) b
    → Lacks b'\n' line
    → length line + 1 < size
    → (b1 : Reader Bytes) × (read_line string_read b ≡ done (line, false, none, b1))
      × Holds size next b1
unfolding read_line
read_line_crlf size line next b h lacks short =
    let pre : Bytes = line ++ (b'\r' ∷ []) in
    let (b1, eq, h1) =
      read_slice_found size b'\n' pre next b
        (subst (λ l. Holds size l b) (sym (append_assoc line (b'\r' ∷ []) (b'\n' ∷ next))) h)
        (Lacks-append b'\n' line (b'\r' ∷ []) lacks (omega arith))
        (omega (arith, length-append {0} line (b'\r' ∷ []))) in
    (b1, rw eq (finish_crlf line b1), h1)
