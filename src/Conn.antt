-- ===== src/Conn.antt =====
-- server/mqtt/conn.go: WebSocket frames over the buffered reader and writer. The slice that the
-- writer's `Peek` hands out is the part of the writer's array that begins at the returned
-- position, and `put` writes through it. A payload is the bytes of the slice that `readFrame`
-- returns; the code unmasks them in the reader's array, behind whose position they lie, and the
-- model unmasks the returned bytes.
pub mod Message
pub mod Bits
pub mod Send
pub mod Receive
pub mod Assemble
pub mod Total
pub mod Answer
pub mod RoundTrip
mod Tests
use kratos_transport_rpc.Prelude.{
  ℕ, zero, suc, ◌+◌, ◌-◌, ◌/◌, ◌%◌, ◌^◌, ◌*◌, bit_and, bit_or, bit_xor, Bool, true, false, ◌&&◌,
  ◌||◌, not, Option, none, some, List, [], ◌∷◌, ◌++◌, Bytes, length, get_or, copy, copy_at, ltb,
  leb, ◌==◌, if◌then◌else◌,
}
use kratos_transport_rpc.Prelude.Int.{ℤ, pos, negsuc}
use kratos_transport_rpc.Io.{
  IoError, message_close, message_max_read, reserved_bits, unknown_message, Outcome, done, panics,
  hangs, ◌>>=◌, Read, Write, is_none,
}
use kratos_transport_rpc.Bufio.Reader.{Reader, read_byte, pop}
use kratos_transport_rpc.Bufio.Writer
use kratos_transport_rpc.Bufio.Writer.{Writer, flush, write_bytes}

abbrev pub fin_bit : ℕ
fin_bit = 128

-- rsv1Bit | rsv2Bit | rsv3Bit
abbrev pub rsv_bits : ℕ
rsv_bits = 112

abbrev pub op_bit : ℕ
op_bit = 15

abbrev pub mask_bit : ℕ
mask_bit = 128

abbrev pub len_bit : ℕ
len_bit = 127

abbrev pub continuation_frame : ℕ
continuation_frame = 0

abbrev pub continuation_frame_max_read : ℕ
continuation_frame_max_read = 100

abbrev pub text_message : ℕ
text_message = 1

abbrev pub binary_message : ℕ
binary_message = 2

abbrev pub close_message : ℕ
close_message = 8

abbrev pub ping_message : ℕ
ping_message = 9

abbrev pub pong_message : ℕ
pong_message = 10

pub record Conn (S W : Type 0) : Type 0 where
  pub r : Reader S
  pub w : Writer W
  pub mask_key : Bytes

unfoldable pub new_conn : {S W : Type 0} → Reader S → Writer W → Conn S W
new_conn r w = record { r = r; w = w; mask_key = 0 ∷ 0 ∷ 0 ∷ 0 ∷ [] }

-- `binary.BigEndian.PutUint16` and `PutUint64`: the k low bytes of v, the highest first
unfoldable pub be_bytes : ℕ → ℕ → Bytes
be_bytes zero v = []
be_bytes (suc k) v = v / 256 ^ k % 256 ∷ be_bytes k v

-- `binary.BigEndian.Uint16` and `Uint64`, with the value of the bytes before
unfoldable pub be_value : ℕ → Bytes → ℕ
be_value acc [] = acc
be_value acc (x ∷ xs) = be_value (acc * 256 + x) xs

-- `int64(v)` of a uint64
unfoldable pub to_int64 : ℕ → ℤ
to_int64 v = if ltb v (2 ^ 63) then pos v else negsuc (2 ^ 64 - v - 1)

-- `maskBytes`: the bytes that it leaves in b, and the next position in the key
unfoldable pub mask_bytes : Bytes → ℕ → Bytes → Bytes × ℕ
mask_bytes key p [] = ([], bit_and p 3)
mask_bytes key p (x ∷ b) =
    let (rest, q) = mask_bytes key (p + 1) b in (bit_xor x (get_or key (bit_and p 3) 0) ∷ rest, q)

module _ {W : Type 0} where
  abbrev pub put : Writer W → ℕ → Bytes → Writer W
  put b i bytes = record b { buf = copy_at b.buf i bytes }

module _ {W : Type 0} (write : Write W) where
  -- `h, err = c.w.Peek(k)`, and the write of `bytes` through `h`
  unfoldable pub put_header : ℕ → Bytes → Writer W → Outcome (Option IoError × Writer W)
  put_header k bytes b = Writer.peek write (pos k) b >>= λ (i, e, b').
      if not (is_none e) then done (e, b') else done (none, put b' i bytes)

  abbrev pub then_put : ℕ → Bytes → Option IoError × Writer W → Outcome (Option IoError × Writer W)
  then_put k bytes (e, b) = if not (is_none e) then done (e, b) else put_header k bytes b

  unfoldable pub write_header : ℕ → ℕ → Writer W → Outcome (Option IoError × Writer W)
  unfolding put_header be_bytes
  write_header msg_type len b =
      let first = bit_or fin_bit (msg_type % 256) in
      if leb len 125
      then put_header 2 (first ∷ len % 256 ∷ []) b
      else if ltb len 65536
      then put_header 2 (first ∷ 126 ∷ []) b >>= then_put 2 (be_bytes 2 (len % 2 ^ 16))
      else put_header 2 (first ∷ 127 ∷ []) b >>= then_put 8 (be_bytes 8 (len % 2 ^ 64))

  unfoldable pub write_body : Bytes → Writer W → Outcome (Option IoError × Writer W)
  write_body msg b =
      if ltb 0 (length msg)
      then (write_bytes write msg b >>= λ (n, e, b'). done (e, b'))
      else done (none, b)

  unfoldable pub write_message : ℕ → Bytes → Writer W → Outcome (Option IoError × Writer W)
  unfolding write_header write_body
  write_message msg_type msg b = write_header msg_type (length msg) b >>= λ (e, b').
      if not (is_none e) then done (e, b') else write_body msg b'

  -- `Conn.Flush`
  unfoldable pub flush_conn : Writer W → Option IoError × Writer W
  flush_conn b = flush write b

-- `if c.maskKey == nil`: a nil slice is no bytes
abbrev pub key_room : Bytes → Bytes
key_room [] = 0 ∷ 0 ∷ 0 ∷ 0 ∷ []
key_room (x ∷ key) = x ∷ key

-- What `readFrame` returns beside the connection.
pub record Frame : Type 0 where
  pub fin : Bool
  pub op : ℕ
  pub payload : Bytes

abbrev pub no_frame : Frame
no_frame = record { fin = false; op = 0; payload = [] }

module _ {S W : Type 0} (read : Read S) where
  -- `if payloadLen > 0`
  unfoldable pub read_payload :
      Bool → ℕ → Bool → ℤ → Conn S W → Outcome (Frame × Option IoError × Conn S W)
  read_payload fin op mask (negsuc n) c =
      done (record { fin = fin; op = op; payload = [] }, none, c)
  read_payload fin op mask (pos n) c =
      if n == 0
      then done (record { fin = fin; op = op; payload = [] }, none, c)
      else (pop read (pos n) c.r >>= λ (p, e, r').
          if not (is_none e)
          then done (record { fin = fin; op = op; payload = p }, e, record c { r = r' })
          else done (
            record {
              fin = fin;
              op = op;
              payload = (if mask then (mask_bytes c.mask_key 0 p).0 else p);
            },
            none,
            record c { r = r' },
          ))

  -- `if mask`
  unfoldable pub read_mask :
      Bool → ℕ → Bool → ℤ → Conn S W → Outcome (Frame × Option IoError × Conn S W)
  unfolding read_payload mask_bytes
  read_mask fin op mask len c =
      if mask
      then (pop read (pos 4) c.r >>= λ (key, e, r').
          if not (is_none e)
          then done (record { fin = fin; op = op; payload = [] }, e, record c { r = r' })
          else read_payload fin op mask len
              (record c { r = r'; mask_key = copy (key_room c.mask_key) key }))
      else read_payload fin op mask len c

  -- `switch b & lenBit`: a length in 2 or 8 bytes
  unfoldable pub read_extended :
      Bool → ℕ → Bool → ℕ → Conn S W → Outcome (Frame × Option IoError × Conn S W)
  unfolding read_mask be_value to_int64
  read_extended fin op mask k c = pop read (pos k) c.r >>= λ (p, e, r').
      if not (is_none e)
      then done (record { fin = fin; op = op; payload = [] }, e, record c { r = r' })
      else read_mask fin op mask (to_int64 (be_value 0 p)) (record c { r = r' })

  unfoldable pub read_length : Bool → ℕ → ℕ → Conn S W → Outcome (Frame × Option IoError × Conn S W)
  unfolding read_extended
  read_length fin op b c =
      let mask = not (bit_and b mask_bit == 0) in
      if bit_and b len_bit == 126
      then read_extended fin op mask 2 c
      else if bit_and b len_bit == 127
      then read_extended fin op mask 8 c
      else read_mask fin op mask (pos (bit_and b len_bit)) c

  unfoldable pub read_frame : Conn S W → Outcome (Frame × Option IoError × Conn S W)
  unfolding read_length
  read_frame c = read_byte read c.r >>= λ (b, e, r1).
      if not (is_none e)
      then done (no_frame, e, record c { r = r1 })
      else if not (bit_and b rsv_bits == 0)
      then done (no_frame, some reserved_bits, record c { r = r1 })
      else (read_byte read r1 >>= λ (b2, e2, r2).
          let fin = not (bit_and b fin_bit == 0) in
          let op = bit_and b op_bit in
          if not (is_none e2)
          then done (record { fin = fin; op = op; payload = [] }, e2, record c { r = r2 })
          else read_length fin op b2 (record c { r = r2 }))
