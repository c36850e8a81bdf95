-- ===== src/Bufio/Reader.antt =====
-- server/mqtt/bufio/bufio.go, type Reader. A reader holds the array `buf`, the positions `r` and
-- `w`, a pending error and the state `rd` of the client's `io.Reader`, whose `Read` is the
-- parameter `read`. A slice that a method returns is the bytes that it holds when the method
-- returns.
pub mod Fill
pub mod Extend
pub mod Advance
pub mod Byte
pub mod Reliable
use kratos_transport_rpc.Prelude.{
  ℕ, zero, suc, ◌+◌, ◌-◌, min, Bool, true, false, ◌&&◌, not, Option, none, some, List, [], ◌∷◌,
  Bytes, length, get_or, take, drop, slice, copy, copy_at, replicate, ltb, leb, ◌==◌, if◌then◌else◌,
}
use kratos_transport_rpc.Prelude.Int.{ℤ, pos, negsuc, to_ℕ}
use kratos_transport_rpc.Io.{
  IoError, no_progress, buffer_full, negative_count, Panic, negative_read, full_buffer, rewind,
  Outcome, done, panics, hangs, ◌>>=◌, Read, is_none, is_buffer_full,
}

pub record Reader (S : Type 0) : Type 0 where
  pub buf : Bytes
  pub rd : S
  pub r : ℕ
  pub w : ℕ
  pub err : Option IoError

abbrev pub min_read_buffer_size : ℕ
min_read_buffer_size = 16

abbrev pub default_buf_size : ℕ
default_buf_size = 4096

abbrev pub max_consecutive_empty_reads : ℕ
max_consecutive_empty_reads = 100

-- What a method returns beside the reader: bytes and an error.
abbrev pub Result : Type 0 → Type 0
Result S = Outcome (Bytes × Option IoError × Reader S)

module _ {S : Type 0} where
  unfoldable pub reset : Bytes → S → Reader S
  reset buf rd = record { buf = buf; rd = rd; r = 0; w = 0; err = none }

  -- For an `io.Reader` that is no `*Reader` itself.
  unfoldable pub new_reader_size : S → ℕ → Reader S
  unfolding reset
  new_reader_size rd size =
      reset (replicate (if ltb size min_read_buffer_size then min_read_buffer_size else size) 0) rd

  unfoldable pub new_reader : S → Reader S
  unfolding new_reader_size
  new_reader rd = new_reader_size rd default_buf_size

  -- `Reset`
  unfoldable pub reset_reader : Reader S → S → Reader S
  unfolding reset
  reset_reader b rd = reset b.buf rd

  -- `ResetBuffer`
  unfoldable pub reset_buffer : S → Bytes → Reader S
  unfolding reset
  reset_buffer rd buf = reset buf rd

  abbrev pub buffered : Reader S → ℕ
  buffered b = b.w - b.r

  abbrev pub avail : Reader S → Bytes
  avail b = slice b.buf b.r b.w

  -- `readErr`: the pending error is returned once.
  abbrev pub clear : Reader S → Reader S
  clear b = record b { err = none }

  -- "Slide existing data to beginning."
  unfoldable pub slide : Reader S → Reader S
  slide b = if ltb 0 b.r then record b { buf = copy b.buf (avail b); w = b.w - b.r; r = 0 } else b

  abbrev pub accept : Reader S → Bytes → S → Reader S
  accept b p s = record b { buf = copy_at b.buf b.w p; w = b.w + length p; rd = s }

  -- `fill` after one call of `Read`; `retry` is the next try.
  unfoldable pub after_read :
      Reader S
      → (Reader S → Outcome (Reader S))
      → Option Bytes × Option IoError × S
      → Outcome (Reader S)
  after_read b retry (none, e, s) = panics negative_read
  after_read b retry (some p, some e, s) = done (record (accept b p s) { err = some e })
  after_read b retry (some [], none, s) = retry (accept b [] s)
  after_read b retry (some (x ∷ p), none, s) = done (accept b (x ∷ p) s)

  -- the return of `Peek` behind its loop
  abbrev pub peeked : ℕ → Reader S → Bytes × Option IoError × Reader S
  peeked n b =
      if ltb (buffered b) n
      then (
        slice b.buf b.r (b.r + buffered b),
        some (elim b.err [ none ↦ buffer_full | some e ↦ e ]),
        clear b,
      )
      else (slice b.buf b.r (b.r + n), none, b)

  -- "copy as much as we can"
  abbrev pub copy_out : ℕ → Reader S → Bytes × Option IoError × Reader S
  copy_out k b =
      let n = min k (buffered b) in (slice b.buf b.r (b.r + n), none, record b { r = b.r + n })

module _ {S : Type 0} (read : Read S) where
  -- the loop of `fill`, on the tries that are left
  unfoldable pub try_fill : ℕ → Reader S → Outcome (Reader S)
  unfolding after_read
  try_fill zero b = done (record b { err = some no_progress })
  try_fill (suc i) b = after_read b (try_fill i) (read b.rd (length b.buf - b.w))

  unfoldable pub fill : Reader S → Outcome (Reader S)
  unfolding slide
  fill b =
      let b' = slide b in
      if leb (length b'.buf) b'.w
      then panics full_buffer
      else try_fill max_consecutive_empty_reads b'

  -- the loop of `Peek`
  unfoldable pub fill_until : ℕ → ℕ → Reader S → Outcome (Reader S)
  fill_until zero n b = hangs
  fill_until (suc f) n b =
      let more = fill b >>= fill_until f n in
      if ltb (buffered b) n && is_none b.err then more else done b

  unfoldable pub peek : ℤ → Reader S → Result S
  unfolding fill_until
  peek (negsuc n) b = done ([], some negative_count, b)
  peek (pos n) b =
      if ltb (length b.buf) n
      then done ([], some buffer_full, b)
      else fill_until (n + 2) n b >>= λ b'. done (peeked n b')

  unfoldable pub pop : ℤ → Reader S → Result S
  unfolding peek
  pop n b = peek n b >>= λ (d, e, b').
      if is_none e then done (d, e, record b' { r = b'.r + to_ℕ n }) else done ([], e, b')

  -- the loop of `Discard`
  unfoldable pub discard_loop : ℕ → ℕ → ℕ → Reader S → Outcome (ℕ × Option IoError × Reader S)
  discard_loop zero n remain b = hangs
  discard_loop (suc f) n remain b = (if buffered b == 0 then fill b else done b) >>= λ b1.
      let skip = min (buffered b1) remain in
      let b2 = record b1 { r = b1.r + skip } in
      let left = remain - skip in
      let more = discard_loop f n left b2 in
      if left == 0
      then done (n, none, b2)
      else if is_none b2.err
      then more
      else done (n - left, b2.err, clear b2)

  unfoldable pub discard : ℤ → Reader S → Outcome (ℕ × Option IoError × Reader S)
  unfolding discard_loop
  discard (negsuc n) b = done (0, some negative_count, b)
  discard (pos n) b = if n == 0 then done (0, none, b) else discard_loop (n + 2) n n b

  -- "Large read, empty buffer": straight from the client's reader.
  abbrev read_direct : ℕ → Reader S → Result S
  read_direct k b =
      let (n, e, s) = read b.rd k in
      elim n [ none ↦ panics negative_read | some p ↦ done (p, e, record b { rd = s; err = none }) ]

  -- `Read(p)` with `len(p) = k`; the bytes are those put into `p`.
  unfoldable pub read_bytes : ℕ → Reader S → Result S
  read_bytes k b =
      if k == 0
      then done ([], b.err, clear b)
      else if not (b.r == b.w)
      then done (copy_out k b)
      else if not (is_none b.err)
      then done ([], b.err, clear b)
      else if leb (length b.buf) k
      then read_direct k b
      else (fill b >>= λ b'.
          if b'.r == b'.w then done ([], b'.err, clear b') else done (copy_out k b'))

  -- the loop of `ReadByte`
  unfoldable pub read_byte_loop : ℕ → Reader S → Outcome (ℕ × Option IoError × Reader S)
  read_byte_loop zero b = hangs
  read_byte_loop (suc f) b =
      let more = fill b >>= read_byte_loop f in
      if not (b.r == b.w)
      then done (get_or b.buf b.r 0, none, record b { r = b.r + 1 })
      else if is_none b.err
      then more
      else done (0, b.err, clear b)

  unfoldable pub read_byte : Reader S → Outcome (ℕ × Option IoError × Reader S)
  unfolding read_byte_loop
  read_byte b = read_byte_loop 2 b
