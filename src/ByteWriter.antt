-- ===== src/ByteWriter.antt =====
-- server/mqtt/bytes/writer.go: an array that grows by copying.
pub mod Append
mod Tests
use kratos_transport_rpc.Prelude.{
  ℕ, ◌+◌, ◌-◌, ◌*◌, Bytes, length, slice, take, copy, copy_at, replicate, drop, min, ltb,
  if◌then◌else◌,
}

pub record ByteWriter : Type 0 where
  pub n : ℕ
  pub buf : Bytes

unfoldable pub new_writer_size : ℕ → ByteWriter
new_writer_size n = record { n = 0; buf = replicate n 0 }

unfoldable pub len : ByteWriter → ℕ
len w = w.n

unfoldable pub size : ByteWriter → ℕ
size w = length w.buf

unfoldable pub reset : ByteWriter → ByteWriter
reset w = record w { n = 0 }

unfoldable pub buffer : ByteWriter → Bytes
buffer w = take w.n w.buf

unfoldable pub grow : ℕ → ByteWriter → ByteWriter
grow n w =
    if ltb (w.n + n) (length w.buf)
    then w
    else record w { buf = copy (replicate (2 * length w.buf + n) 0) (take w.n w.buf) }

-- `Peek(n)`: where the slice begins in the array, and its bytes
unfoldable pub peek : ℕ → ByteWriter → (ℕ × Bytes) × ByteWriter
unfolding grow
peek n w = let w1 = grow n w in ((w1.n, slice w1.buf w1.n (w1.n + n)), record w1 { n = w1.n + n })

-- `copy(w.buf[w.n:], p)` copies no more than there is room for.
unfoldable pub write : Bytes → ByteWriter → ByteWriter
unfolding grow
write p w =
    let w1 = grow (length p) w in
    record { n = w1.n + min (length w1.buf - w1.n) (length p); buf = copy_at w1.buf w1.n p }
