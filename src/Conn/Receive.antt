-- ===== src/Conn/Receive.antt =====
-- `readFrame` reads back the frames that `WriteMessage` sends.
use kratos_transport_rpc.Prelude.{
  inl, inr, ℕ, ◌%◌, ◌^◌, ◌≤◌, ◌<◌, bit_or, ◌≡◌, refl, ap, ap₂, sym, subst, ◌∙◌, Option, none, Bool,
  true, false, [], ◌∷◌, ◌++◌, append_assoc, Bytes, length, length-append, length-eq-nil, drop,
  get_or, ltb, leb, ◌==◌, ==_iff, ==_false, lt→ltb, Bool-cases, leb→le, ltb→lt, arith,
}
use kratos_transport_rpc.Prelude.Int.{pos}
use kratos_transport_rpc.Io.{IoError, Outcome, done, Read, IsSource}
use kratos_transport_rpc.Bufio.Reader.{Reader, read_byte, pop}
use kratos_transport_rpc.Bufio.Reader.Fill.{IsValid, stream}
use kratos_transport_rpc.Bufio.Reader.Reliable.{IsReliable, Settled, pop_all, read_byte_all}
use kratos_transport_rpc.Conn.{
  Conn, Frame, fin_bit, be_bytes, be_value, to_int64, read_payload, read_mask, read_extended,
  read_length, read_frame,
}
use kratos_transport_rpc.Conn.Bits.{first_byte, second_byte, be_two, be_eight, length-be_bytes}
use kratos_transport_rpc.Conn.Send.{frame_header, frame_bytes}

-- A reader with a buffer of `size` bytes, from which `next` can be read.
pub record Ready {S : Type 0} (rest : S → Bytes) (size : ℕ) (next : Bytes) (r : Reader S)
    : Type 0 where
  pub valid : IsValid r
  pub settled : Settled rest r
  pub size_eq : length r.buf ≡ size
  pub stream_eq : stream rest r ≡ next

append-cancel :
    (xs ys a b : Bytes) → length xs ≡ length ys → xs ++ a ≡ ys ++ b → (xs ≡ ys) × (a ≡ b)
append-cancel [] [] a b h e = (refl, e)
append-cancel [] (y ∷ ys) a b h e = absurd (omega arith)
append-cancel (x ∷ xs) [] a b h e = absurd (omega arith)
append-cancel (x ∷ xs) (y ∷ ys) a b h e =
    let (p, q) = append-cancel xs ys a b (omega arith) (ap (drop 1) e) in
    (ap₂ ◌∷◌ (ap (λ l. get_or l 0 0) e) p, q)

module _ {S : Type 0} (read : Read S) (rest : S → Bytes) (src : IsSource read rest)
    (rel : IsReliable read rest) (size : ℕ) where
  byte_in :
      (x : ℕ) (next : Bytes) (r : Reader S)
      → Ready rest size (x ∷ next) r
      → (r1 : Reader S) × (read_byte read r ≡ done (x, none, r1)) × Ready rest size next r1
  byte_in x next r h =
      let t =
        read_byte_all read rest src rel r h.valid h.settled
          (omega (arith, ap length h.stream_eq)) in
      let e = sym t.taken ∙ h.stream_eq in
      (
        t.after,
        t.returns ∙ ap (λ (y : ℕ). done (y, none, t.after)) (ap (λ l. get_or l 0 0) e),
        record {
          valid = t.valid;
          settled = t.settled;
          size_eq = t.same_size ∙ h.size_eq;
          stream_eq = ap (drop 1) e;
        },
      )

  bytes_in :
      (k : ℕ) (p next : Bytes) (r : Reader S)
      → length p ≡ k
      → k ≤ size
      → Ready rest size (p ++ next) r
      → (r1 : Reader S) × (pop read (pos k) r ≡ done (p, none, r1)) × Ready rest size next r1
  bytes_in k p next r len fits h =
      let t =
        pop_all read rest src rel r k h.valid h.settled (omega (arith, h.size_eq))
          (omega (arith, ap length h.stream_eq, length-append {0} p next)) in
      let (same, after) =
        append-cancel t.bytes p (stream rest t.after) next (t.size ∙ sym len)
          (sym t.taken ∙ h.stream_eq) in
      (
        t.after,
        t.returns ∙ ap (λ l. done (l, none, t.after)) same,
        record {
          valid = t.valid;
          settled = t.settled;
          size_eq = t.same_size ∙ h.size_eq;
          stream_eq = after;
        },
      )

  module _ {W : Type 0} (fin : Bool) (op : ℕ) where
    -- The frame is returned, and the connection changes in its reader alone.
    abbrev Receives :
        Bytes → Bytes → Conn S W → Outcome (Frame × Option IoError × Conn S W) → Type 0
    Receives msg next c call =
        (r1 : Reader S) × (call
          ≡ done (record { fin = fin; op = op; payload = msg }, none, record c { r = r1 }))
        × Ready rest size next r1

    payload_in :
        (msg next : Bytes) (c : Conn S W)
        → length msg ≤ size
        → Ready rest size (msg ++ next) c.r
        → Receives msg next c (read_payload read fin op false (pos (length msg)) c)
    unfolding read_payload
    payload_in msg next c fits h = elim (Bool-cases (length msg == 0)) [
      | inl empty ↦
          let nil = length-eq-nil msg ((==_iff (length msg) 0).0 empty) in
          (c.r, rw (empty, nil), rw nil at h)
      | inr some_bytes ↦
          let (r1, eq, h1) = bytes_in (length msg) msg next c.r refl fits h in
          (r1, rw (some_bytes, eq), h1)
    ]

    long_in :
        (k : ℕ) (msg next : Bytes) (c : Conn S W)
        → be_value 0 (be_bytes k (length msg)) ≡ length msg
        → length msg < 2 ^ 63
        → k ≤ size
        → length msg ≤ size
        → Ready rest size (be_bytes k (length msg) ++ (msg ++ next)) c.r
        → Receives msg next c (read_extended read fin op false k c)
    unfolding read_extended read_mask to_int64
    long_in k msg next c value small k_fits fits h =
        let (r1, eq, h1) =
          bytes_in k (be_bytes k (length msg)) (msg ++ next) c.r (length-be_bytes k (length msg))
            k_fits h in
        let (r2, eq2, h2) = payload_in msg next (record c { r = r1 }) fits h1 in
        (r2, rw (eq, value, lt→ltb (length msg) (2 ^ 63) small, eq2), h2)

    -- After the first byte of a frame that `frame_header` begins.
    AfterFirst : Bytes → Bytes → Conn S W → Reader S → Type 0
    AfterFirst msg next c r0 =
        (b : ℕ) × (r1 : Reader S) × (read_byte read r0 ≡ done (b, none, r1))
        × Receives msg next c (read_length read fin op b (record c { r = r1 }))

    extended_in :
        (b k : ℕ) (msg next : Bytes) (c : Conn S W) (r0 : Reader S)
        → ((r1 : Reader S)
            → read_length read fin op b (record c { r = r1 })
              ≡ read_extended read fin op false k (record c { r = r1 }))
        → be_value 0 (be_bytes k (length msg)) ≡ length msg
        → length msg < 2 ^ 63
        → k ≤ size
        → length msg ≤ size
        → Ready rest size (b ∷ be_bytes k (length msg) ++ (msg ++ next)) r0
        → AfterFirst msg next c r0
    unfolding AfterFirst
    extended_in b k msg next c r0 step value small k_fits fits h =
        let (r1, eq, h1) = byte_in b (be_bytes k (length msg) ++ (msg ++ next)) r0 h in
        let (r2, eq2, h2) = long_in k msg next (record c { r = r1 }) value small k_fits fits h1 in
        (b, r1, eq, (r2, step r1 ∙ eq2, h2))

    length_in :
        (msg next : Bytes) (c : Conn S W) (r0 : Reader S)
        → 8 ≤ size
        → length msg ≤ size
        → length msg < 2 ^ 63
        → Ready rest size (drop 1 (frame_header 0 (length msg)) ++ (msg ++ next)) r0
        → AfterFirst msg next c r0
    unfolding AfterFirst read_length read_mask
    length_in msg next c r0 room fits small h = elim (Bool-cases (leb (length msg) 125)) [
      | inl s ↦
          let n = length msg in
          let le = leb→le n 125 s in
          let (r1, eq, h1) = byte_in n (msg ++ next) r0 (rw s at h) in
          let (len, mask) = second_byte n (omega arith) in
          let (r2, eq2, h2) = payload_in msg next (record c { r = r1 }) fits h1 in
          (
            n,
            r1,
            eq,
            (
              r2,
              rw (len, mask, ==_false n 126 (omega arith), ==_false n 127 (omega arith), eq2),
              h2,
            ),
          )
      | inr s ↦ elim (Bool-cases (ltb (length msg) 65536)) [
        | inl m ↦
            extended_in 126 2 msg next c r0 (λ r1. refl)
              (be_two (length msg) (omega (arith, ltb→lt (length msg) 65536 m))) small (omega arith)
              fits (rw (s, m) at h)
        | inr m ↦
            extended_in 127 8 msg next c r0 (λ r1. refl) (be_eight (length msg) (omega arith)) small
              room fits (rw (s, m) at h)
      ]
    ]

  first_in : (t n : ℕ) → frame_header t n ≡ bit_or fin_bit (t % 256) ∷ drop 1 (frame_header 0 n)
  first_in t n = elim (Bool-cases (leb n 125)) [
    | inl s ↦ rw s
    | inr s ↦ elim (Bool-cases (ltb n 65536)) [ inl m ↦ rw (s, m) | inr m ↦ rw (s, m) ]
  ]

  -- From a reader that has the frame of a message next, `readFrame` returns the op code and the
  -- message as it was sent, FIN set and no error, and leaves the reader at the bytes that follow
  -- the frame. The op code has 4 bits, the message fits the buffer of 8 bytes or more, and the
  -- source gives everything it has.
  pub read_frame_lem :
      {W : Type 0} (t : ℕ) (msg next : Bytes) (c : Conn S W)
      → t < 16
      → 8 ≤ size
      → length msg ≤ size
      → length msg < 2 ^ 63
      → Ready rest size (frame_bytes t msg ++ next) c.r
      → Receives true t msg next c (read_frame read c)
  unfolding read_frame AfterFirst
  read_frame_lem t msg next c small room fits short h =
      let head : Bytes = drop 1 (frame_header 0 (length msg)) in
      let start =
        ap (λ l. (l ++ msg) ++ next) (first_in t (length msg))
        ∙ ap (λ l. bit_or fin_bit (t % 256) ∷ l) (append_assoc head msg next) in
      let (r0, eq, h0) =
        byte_in (bit_or fin_bit (t % 256)) (head ++ (msg ++ next)) c.r
          (subst (λ l. Ready rest size l c.r) start h) in
      let (b, r1, eq1, (r2, eq2, h2)) = length_in true t msg next c r0 room fits short h0 in
      let e : t % 256 ≡ t = omega arith in
      let (op, fin, rsv) = first_byte t small in (r2, rw (eq, e, rsv, eq1, op, fin, eq2), h2)
