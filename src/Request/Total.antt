-- ===== src/Request/Total.antt =====
-- ReadRequest on any string: its loops end.
use kratos_transport_rpc.Prelude.{
  ℕ, zero, suc, ◌≤◌, ◌<◌, ◌≡◌, refl, ◌⊎◌, inl, inr, Option, none, some, [], ◌++◌, Bytes, length,
  Bool-cases, true, false, not, ◌&&◌, index_byte, ◌==◌, arith,
}
use kratos_transport_rpc.Io.{IoError, Outcome, done, is_none, is_eof}
use kratos_transport_rpc.Io.Memory.{string_read, string-IsSource}
use kratos_transport_rpc.Bufio.Reader.{Reader, new_reader, default_buf_size}
use kratos_transport_rpc.Bufio.Lines.Slice.{read_slice_lem}
use kratos_transport_rpc.Bufio.Lines.Exact.{Holds}
use kratos_transport_rpc.Bufio.Lines.Progress.{read_line-Steps}
use kratos_transport_rpc.Request.{
  Request, no_request, Header, Headers, Parts, Lines, read_full_line, on_colon, on_line,
  read_header, read_rest, read_parts, parse_request_line, read_request, trim, add_line,
}
use kratos_transport_rpc.Request.Exact.{new_reader-Holds}

abbrev Returns : {A : Type 0} → Outcome A → Type 0
Returns {A} call = (a : A) × (call ≡ done a)

module _ (size : ℕ) (large : 2 ≤ size) where
  -- A line, the reader behind it, and that it is an error or leaves less of the string.
  record FullLine (s : Bytes) (call : Lines Bytes) : Type 0 where
    line : Bytes
    error : Option IoError
    after : Reader Bytes
    left : Bytes
    returns : call ≡ done (line, error, after)
    holds : Holds size left after
    moved : (is_none error ≡ false) ⊎ (length left < length s)

  read_full_line-FullLine :
      (f : ℕ) (line s : Bytes) (b : Reader Bytes)
      → Holds size s b
      → length s < f
      → FullLine s (read_full_line string_read f line b)
  unfolding read_full_line
  read_full_line-FullLine zero line s b h enough = absurd (omega arith)
  read_full_line-FullLine (suc f) line s b h enough =
      let st = read_line-Steps size s b large h in
      elim (Bool-cases (is_none st.error)) [
        | inr failed ↦ record {
          line = [];
          error = st.error;
          after = st.after;
          left = st.left;
          returns = rw (st.returns, failed) refl;
          holds = st.holds;
          moved = inl failed;
        }
        | inl fine ↦ elim (Bool-cases st.is_prefix) [
          | inr whole ↦ record {
            line = line ++ st.line;
            error = none;
            after = st.after;
            left = st.left;
            returns = rw (st.returns, fine, whole) refl;
            holds = st.holds;
            moved = elim st.moved [ inl failed ↦ absurd cc | inr less ↦ inr less ];
          }
          | inl part ↦
              let less : length st.left < length s = elim st.moved [
                | inl failed ↦ absurd cc
                | inr less ↦ less
              ] in
              let next =
                read_full_line-FullLine f (line ++ st.line) st.left st.after st.holds
                  (omega arith) in
              record {
                line = next.line;
                error = next.error;
                after = next.after;
                left = next.left;
                returns = rw (st.returns, fine, part) next.returns;
                holds = next.holds;
                moved = elim next.moved [ inl failed ↦ inl failed | inr fewer ↦ inr (omega arith) ];
              }
        ]
      ]

  on_colon-Returns :
      (next : Header → Reader Bytes → Headers Bytes) (header : Header) (line : Bytes)
      (b : Reader Bytes) (i : Option ℕ)
      → ((h : Header) → Returns (next h b))
      → Returns (on_colon string_read next header line b i)
  unfolding on_colon
  on_colon-Returns next header line b none goes = (_, refl)
  on_colon-Returns next header line b (some i) goes = elim (Bool-cases (i == 0)) [
    | inl first ↦ rw first (_, refl)
    | inr later ↦ rw later (goes (add_line string_read line i header))
  ]

  on_line-Returns :
      (next : Header → Reader Bytes → Headers Bytes) (header : Header) (full : Bytes)
      (e : Option IoError) (b : Reader Bytes) (left : Bytes)
      → Holds size left b
      → (is_none e ≡ true → (h : Header) → Returns (next h b))
      → Returns (on_line string_read next header (full, e, b))
  unfolding on_line
  on_line-Returns next header full e b left h goes = elim (Bool-cases (is_none e)) [
    | inr failed ↦ rw failed (_, refl)
    | inl fine ↦ elim (Bool-cases (length (trim full) == 0)) [
      | inl empty ↦
          let c = read_slice_lem string_read (λ l. l) string-IsSource 0 b h.valid in
          rw (fine, empty, c.returns) (_, refl)
      | inr some_bytes ↦
          rw (fine, some_bytes)
            (on_colon-Returns next header (trim full) b (index_byte (trim full) b':') (goes fine))
    ]
  ]

  read_header-Returns :
      (f n : ℕ) (header : Header) (s : Bytes) (b : Reader Bytes)
      → Holds size s b
      → length s < f
      → length s < n
      → Returns (read_header string_read f n header b)
  unfolding read_header
  read_header-Returns f zero header s b h enough rounds = absurd (omega arith)
  read_header-Returns f (suc n) header s b h enough rounds =
      let l = read_full_line-FullLine f [] s b h enough in
      rw l.returns (
        on_line-Returns (read_header string_read f n) header l.line l.error l.after l.left l.holds
          (λ fine more. elim l.moved [
            | inl failed ↦ absurd cc
            | inr less ↦
                read_header-Returns f n more l.left l.after l.holds (omega arith) (omega arith)
          ]))

  read_parts-Returns :
      (f : ℕ) (parts : Option Parts) (s : Bytes) (b : Reader Bytes)
      → Holds size s b
      → length s < f
      → Returns (read_parts string_read f parts b)
  unfolding read_parts read_rest
  read_parts-Returns f none s b h enough = (_, refl)
  read_parts-Returns f (some (method, uri, proto)) s b h enough =
      let ((header, body, e, b'), returns) = read_header-Returns f f [] s b h enough enough in
      elim (Bool-cases (not (is_none e) && not (is_eof e))) [
        | inl failed ↦ rw (returns, failed) (_, refl)
        | inr fine ↦ rw (returns, fine) (_, refl)
      ]

-- ReadRequest returns on every text, whatever it holds, with an error or without one: as many rounds
-- of its loops as the text has bytes, and one more, are enough.
pub read_request-total :
    (f : ℕ) (text : Bytes)
    → length text < f
    → (request : Option Request) × (error : Option IoError) × (after : Reader Bytes) × (read_request
          string_read f
          (new_reader text)
        ≡ done (request, error, after))
unfolding read_request new_reader
read_request-total f text enough =
    let large : 2 ≤ default_buf_size = omega arith in
    let l =
      read_full_line-FullLine default_buf_size large f [] text (new_reader text)
        (new_reader-Holds default_buf_size text (omega arith)) enough in
    elim (Bool-cases (is_none l.error)) [
      | inr failed ↦ (some no_request, l.error, l.after, rw (l.returns, failed) refl)
      | inl fine ↦
          let less : length l.left < length text = elim l.moved [
            | inl failed ↦ absurd cc
            | inr less ↦ less
          ] in
          let ((request, error, after), returns) =
            read_parts-Returns default_buf_size large f (parse_request_line l.line) l.left l.after
              l.holds (omega arith) in
          (request, error, after, rw (l.returns, fine) returns)
    ]
