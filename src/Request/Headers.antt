-- ===== src/Request/Headers.antt =====
-- `readLine` and `readMIMEHeader` on the lines of a message.
use kratos_transport_rpc.Prelude.{
  ℕ, suc, ◌+◌, ◌≤◌, ◌<◌, ◌≡◌, refl, ap, sym, subst, ◌∙◌, none, some, [], ◌∷◌, ◌++◌, append_assoc,
  Bytes, length, length-append, drop, take-append, Lacks, Lacks-append, index_byte-append, ==_false,
  arith,
}
use kratos_transport_rpc.Io.{eof, done}
use kratos_transport_rpc.Io.Memory.{string_read}
use kratos_transport_rpc.Bufio.Reader.{Reader}
use kratos_transport_rpc.Bufio.Lines.Exact.{Holds, read_slice_rest, read_line_crlf}
use kratos_transport_rpc.Request.{
  trim_right, Header, Headers, trim, trim_left, add_value, read_full_line, on_line, on_colon,
  read_header,
}
use kratos_transport_rpc.Request.Text.{drop_one}
use kratos_transport_rpc.Request.Trim.{FirstSolid, trim_left-solid, trim-solid, LastSolid-append}
use kratos_transport_rpc.Wire.{crlf, header_line}
use kratos_transport_rpc.Request.Words.{IsWord, IsWord-LastSolid, IsWord-FirstSolid, IsWord-newline}

-- A reader that has the text `s` left, which its buffer has room for.
abbrev pub Stock : ℕ → Bytes → Reader Bytes → Type 0
Stock size s b = Holds size s b × (length s ≤ size)

module _ (size f : ℕ) where
  pub full_line_in :
      (line next : Bytes) (b : Reader Bytes)
      → Stock size (line ++ (crlf ++ next)) b
      → Lacks b'\n' line
      → (b1 : Reader Bytes) × (read_full_line string_read (suc f) [] b ≡ done (line, none, b1))
        × Stock size next b1
  unfolding read_full_line
  full_line_in line next b (h, fits) lacks =
      let total = length-append {0} line (crlf ++ next) in
      let (b1, eq, h1) = read_line_crlf size line next b h lacks (omega arith) in
      (b1, rw eq, (h1, omega arith))

  -- The header line of a name and a word.
  pub record Pair (k v : Bytes) : Type 0 where
    pub some_key : 0 < length k
    pub key_solid : FirstSolid k
    pub key_colon : Lacks b':' k
    pub key_newline : Lacks b'\n' k
    pub word : IsWord v
    pub some_value : 0 < length v

  FirstSolid-append : (k l : Bytes) → 0 < length k → FirstSolid k → FirstSolid (k ++ l)
  FirstSolid-append [] l h s = absurd (omega arith)
  FirstSolid-append (x ∷ k) l h s = s

  pub on_Pair :
      (next : Header → Reader Bytes → Headers Bytes) (h : Header) (k v : Bytes) (b : Reader Bytes)
      → Pair k v
      → on_line string_read next h (k ++ b':' ∷ b' ' ∷ v, none, b) ≡ next (add_value k v h) b
  unfolding on_line on_colon
  on_Pair next h k v b p =
      let full : Bytes = k ++ b':' ∷ b' ' ∷ v in
      let solid : trim full ≡ full =
        trim-solid full (FirstSolid-append k (b':' ∷ b' ' ∷ v) p.some_key p.key_solid) (
          LastSolid-append k (b':' ∷ b' ' ∷ v) (omega arith)
            (LastSolid-append (b':' ∷ b' ' ∷ []) v p.some_value (IsWord-LastSolid v p.word))) in
      let value : trim_left (drop (length k + 1) full) ≡ v =
        ap trim_left (drop_one k (b' ' ∷ v) b':' (length k + 1) refl)
        ∙ trim_left-solid v (IsWord-FirstSolid v p.word) in
      rw (
        solid,
        index_byte-append k (b' ' ∷ v) b':' p.key_colon,
        ==_false (length k) 0 (omega (arith, p.some_key)),
        ==_false (length full) 0 (omega (arith, length-append {0} k (b':' ∷ b' ' ∷ v))),
        take-append k (b':' ∷ b' ' ∷ v),
        value,
      )

  pub Pair-in :
      (n : ℕ) (h : Header) (k v next : Bytes) (b : Reader Bytes)
      → Pair k v
      → Stock size (header_line k v ++ next) b
      → (b1 : Reader Bytes) × (read_header string_read (suc f) (suc n) h b
          ≡ read_header string_read (suc f) n (add_value k v h) b1)
        × Stock size next b1
  unfolding read_header
  Pair-in n h k v next b p s =
      let line : Bytes = k ++ b':' ∷ b' ' ∷ v in
      let split : header_line k v ++ next ≡ line ++ (crlf ++ next) =
        append_assoc k (b':' ∷ b' ' ∷ v ++ crlf) next
        ∙ ap (λ l. k ++ b':' ∷ b' ' ∷ l) (append_assoc v crlf next)
        ∙ sym (append_assoc k (b':' ∷ b' ' ∷ v) (crlf ++ next)) in
      let lacks =
        Lacks-append b'\n' k (b':' ∷ b' ' ∷ v) p.key_newline
          ((λ e. omega arith), ((λ e. omega arith), IsWord-newline v p.word)) in
      let (b1, eq, s1) = full_line_in line next b (subst (λ l. Stock size l b) split s) lacks in
      (b1, rw eq (on_Pair (read_header string_read (suc f) n) h k v b1 p), s1)

  -- The empty line, and the body behind it.
  pub body_in :
      (n : ℕ) (h : Header) (body : Bytes) (b : Reader Bytes)
      → Lacks 0 body
      → Stock size (crlf ++ body) b
      → (b1 : Reader Bytes) × (read_header string_read (suc f) (suc n) h b
          ≡ done (h, body, some eof, b1))
        × Holds size [] b1
  unfolding read_header on_line trim trim_left trim_right
  body_in n h body b lacks s =
      let (b1, eq, (s1, fits)) = full_line_in [] body b s tt in
      let (b2, eq2, s2) = read_slice_rest size 0 body b1 s1 lacks (omega (arith, s.1)) in
      (b2, rw (eq, eq2), s2)
