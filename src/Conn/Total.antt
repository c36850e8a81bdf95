-- ===== src/Conn/Total.antt =====
-- `readFrame` and `ReadMessage` return on every input.
use kratos_transport_rpc.Prelude.{
  ℕ, suc, ◌+◌, ◌≤◌, bit_and, copy, ◌≡◌, refl, ap, ◌∙◌, inl, inr, Option, none, some, Bool, true,
  false, not, [], ◌∷◌, Bytes, length, ltb, ◌==◌, ltb→le, Bool-cases, if◌then◌else◌, arith,
}
use kratos_transport_rpc.Prelude.Int.{ℤ, pos, negsuc}
use kratos_transport_rpc.Io.{
  IoError, buffer_full, reserved_bits, Outcome, done, Read, IsSource, is_none, ◌>>=◌,
}
use kratos_transport_rpc.Bufio.Reader.{Reader, read_byte, peek, pop}
use kratos_transport_rpc.Bufio.Reader.Fill.{IsValid}
use kratos_transport_rpc.Bufio.Reader.Byte.{read_byte_lem}
use kratos_transport_rpc.Bufio.Reader.Advance.{pop_lem}
use kratos_transport_rpc.Bufio.Writer.Flush
use kratos_transport_rpc.Conn.{
  Conn, Frame, key_room, mask_bytes, read_payload, read_mask, read_extended, read_length,
  read_frame, be_value, to_int64, no_frame,
}

length-mask_bytes : (key : Bytes) (p : ℕ) (b : Bytes) → length (mask_bytes key p b).0 ≡ length b
unfolding mask_bytes
length-mask_bytes key p [] = refl
length-mask_bytes key p (x ∷ b) = ap suc (length-mask_bytes key (p + 1) b)

-- A connection whose buffers are valid; the writer's has room for a header.
pub record IsConn {S W : Type 0} (size : ℕ) (c : Conn S W) : Type 0 where
  pub reader : IsValid c.r
  pub read_size : length c.r.buf ≡ size
  pub writer : Flush.IsValid c.w
  pub write_size : 8 ≤ length c.w.buf

-- `call` returns a frame or an error, and a valid connection.
pub record Framed {S W : Type 0} (size : ℕ) (call : Outcome (Frame × Option IoError × Conn S W))
    : Type 0 where
  pub frame : Frame
  pub error : Option IoError
  pub after : Conn S W
  pub returns : call ≡ done (frame, error, after)
  pub valid : IsConn size after
  pub fits : length frame.payload ≤ size

module _ {S : Type 0} (read : Read S) (rest : S → Bytes) (src : IsSource read rest) (size : ℕ) where
  -- `Pop`, for a number of any size.
  pop_total :
      (n : ℕ) (r : Reader S)
      → IsValid r
      → length r.buf ≡ size
      → (bytes : Bytes) × (e : Option IoError) × (r1 : Reader S) × (pop read (pos n) r
          ≡ done (bytes, e, r1))
        × IsValid r1
        × (length r1.buf ≡ size)
        × (length bytes ≤ size)
  unfolding pop peek
  pop_total n r v sz = elim (Bool-cases (ltb (length r.buf) n)) [
    | inl large ↦ ([], some buffer_full, r, rw large, v, sz, omega arith)
    | inr fits ↦
        let p = pop_lem read rest src r n v (ltb→le (length r.buf) n fits) in
        (
          p.bytes,
          p.error,
          p.after,
          p.returns,
          p.valid,
          p.same_size ∙ sz,
          elim p.all_or_nothing [
            | inl (fine, len) ↦ omega (arith, len, ltb→le (length r.buf) n fits)
            | inr (failed, nil) ↦ omega (arith, ap length nil)
          ],
        )
  ]

unmasked_fits :
    {size : ℕ} (mask : Bool) (key p : Bytes)
    → length p ≤ size
    → length (if mask then (mask_bytes key 0 p).0 else p) ≤ size
unmasked_fits true key p h = omega (arith, length-mask_bytes key 0 p)
unmasked_fits false key p h = h

module _ {S W : Type 0} (read : Read S) (rest : S → Bytes) (src : IsSource read rest)
    (size : ℕ) where
  stays :
      (c : Conn S W) (r : Reader S)
      → IsConn size c
      → IsValid r
      → length r.buf ≡ size
      → IsConn size (record c { r = r })
  stays c r h v sz = record {
    reader = v;
    read_size = sz;
    writer = h.writer;
    write_size = h.write_size;
  }

  frame_of :
      (fr : Frame) (e : Option IoError) (c : Conn S W)
      → IsConn size c
      → length fr.payload ≤ size
      → Framed size (done (fr, e, c))
  frame_of fr e c h fits = record {
    frame = fr;
    error = e;
    after = c;
    returns = refl;
    valid = h;
    fits = fits;
  }

  payload_total :
      (fin : Bool) (op : ℕ) (mask : Bool) (n : ℤ) (c : Conn S W)
      → IsConn size c
      → Framed size (read_payload read fin op mask n c)
  unfolding read_payload
  payload_total fin op mask (negsuc n) c h = frame_of _ none c h (omega arith)
  payload_total fin op mask (pos n) c h = elim (Bool-cases (n == 0)) [
    | inl empty ↦
        rw empty (frame_of (record { fin = fin; op = op; payload = [] }) none c h (omega arith))
    | inr more ↦
        let (p, e, r1, eq, v, sz, len) = pop_total read rest src size n c.r h.reader h.read_size in
        rw (more, eq)
          (elim (Bool-cases (is_none e)) [
            | inr failed ↦ rw failed (
                frame_of (record { fin = fin; op = op; payload = p }) e (record c { r = r1 })
                  (stays c r1 h v sz) len)
            | inl fine ↦ rw fine (
                frame_of
                  (record {
                    fin = fin;
                    op = op;
                    payload = (if mask then (mask_bytes c.mask_key 0 p).0 else p);
                  })
                  none (record c { r = r1 }) (stays c r1 h v sz)
                  (unmasked_fits mask c.mask_key p len))
          ])
  ]

  mask_total :
      (fin : Bool) (op : ℕ) (mask : Bool) (n : ℤ) (c : Conn S W)
      → IsConn size c
      → Framed size (read_mask read fin op mask n c)
  unfolding read_mask
  mask_total fin op false n c h = payload_total fin op false n c h
  mask_total fin op true n c h =
      let (key, e, r1, eq, v, sz, len) = pop_total read rest src size 4 c.r h.reader h.read_size in
      rw eq (elim (Bool-cases (is_none e)) [
        | inr failed ↦ rw failed (
            frame_of (record { fin = fin; op = op; payload = [] }) e (record c { r = r1 })
              (stays c r1 h v sz) (omega arith))
        | inl fine ↦ rw fine (
            payload_total fin op true n
              (record c { r = r1; mask_key = copy (key_room c.mask_key) key })
              (record { reader = v; read_size = sz; writer = h.writer; write_size = h.write_size }))
      ])

  extended_total :
      (fin : Bool) (op : ℕ) (mask : Bool) (k : ℕ) (c : Conn S W)
      → IsConn size c
      → Framed size (read_extended read fin op mask k c)
  unfolding read_extended
  extended_total fin op mask k c h =
      let (p, e, r1, eq, v, sz, len) = pop_total read rest src size k c.r h.reader h.read_size in
      rw eq (elim (Bool-cases (is_none e)) [
        | inr failed ↦ rw failed (
            frame_of (record { fin = fin; op = op; payload = [] }) e (record c { r = r1 })
              (stays c r1 h v sz) (omega arith))
        | inl fine ↦ rw fine (
            mask_total fin op mask (to_int64 (be_value 0 p)) (record c { r = r1 })
              (stays c r1 h v sz))
      ])

  length_total :
      (fin : Bool) (op b : ℕ) (c : Conn S W)
      → IsConn size c
      → Framed size (read_length read fin op b c)
  unfolding read_length
  length_total fin op b c h = elim (Bool-cases (bit_and b 127 == 126)) [
    | inl two ↦ rw two (extended_total fin op (not (bit_and b 128 == 0)) 2 c h)
    | inr other ↦ elim (Bool-cases (bit_and b 127 == 127)) [
      | inl eight ↦ rw (other, eight) (extended_total fin op (not (bit_and b 128 == 0)) 8 c h)
      | inr short ↦
          rw (other, short) (mask_total fin op (not (bit_and b 128 == 0)) (pos (bit_and b 127)) c h)
    ]
  ]

  second_total :
      (fin : Bool) (op : ℕ) (c : Conn S W)
      → IsConn size c
      → Framed size (
          read_byte read c.r >>= λ (b2, e2, r2).
          if not (is_none e2)
          then done (record { fin = fin; op = op; payload = [] }, e2, record c { r = r2 })
          else read_length read fin op b2 (record c { r = r2 }))
  second_total fin op c h =
      let t = read_byte_lem read rest src c.r h.reader in
      let next = stays c t.after h t.valid (t.same_size ∙ h.read_size) in
      rw t.returns (elim (Bool-cases (is_none t.error)) [
        | inr failed ↦ rw failed (
            frame_of (record { fin = fin; op = op; payload = [] }) t.error
              (record c { r = t.after }) next (omega arith))
        | inl fine ↦ rw fine (length_total fin op t.byte (record c { r = t.after }) next)
      ])

  -- `readFrame` returns from every valid connection, with a frame or an error, whatever the bytes
  -- that come; the connection stays valid and the payload is no longer than the buffer.
  pub read_frame-total : (c : Conn S W) → IsConn size c → Framed size (read_frame read c)
  unfolding read_frame
  read_frame-total c h =
      let t = read_byte_lem read rest src c.r h.reader in
      let c1 : Conn S W = record c { r = t.after } in
      let next = stays c t.after h t.valid (t.same_size ∙ h.read_size) in
      rw t.returns (elim (Bool-cases (is_none t.error)) [
        | inr failed ↦ rw failed (frame_of no_frame t.error c1 next (omega arith))
        | inl fine ↦ elim (Bool-cases (bit_and t.byte 112 == 0)) [
          | inr reserved ↦
              rw (fine, reserved) (frame_of no_frame (some reserved_bits) c1 next (omega arith))
          | inl clean ↦
              rw (fine, clean)
                (second_total (not (bit_and t.byte 128 == 0)) (bit_and t.byte 15) c1 next)
        ]
      ])
