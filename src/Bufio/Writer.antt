-- ===== src/Bufio/Writer.antt =====
-- server/mqtt/bufio/bufio.go, type Writer. A writer holds the array `buf`, of which the first `n`
-- bytes are pending, an error and the state `wr` of the client's `io.Writer`, whose `Write` is the
-- parameter `write`.
pub mod Flush
pub mod Append
pub mod Round
pub mod Room
use kratos_transport_rpc.Prelude.{
  ℕ, zero, suc, ◌+◌, ◌-◌, min, Bool, true, false, ◌&&◌, not, Option, none, some, [], Bytes, length,
  take, drop, slice, copy, copy_at, replicate, ltb, leb, ◌==◌, if◌then◌else◌,
}
use kratos_transport_rpc.Prelude.Int.{ℤ, pos, negsuc}
use kratos_transport_rpc.Io.{
  IoError, short_write, buffer_full, negative_count, Outcome, done, hangs, ◌>>=◌, Write, is_none,
}
use kratos_transport_rpc.Bufio.Reader.{default_buf_size}

pub record Writer (W : Type 0) : Type 0 where
  pub err : Option IoError
  pub buf : Bytes
  pub n : ℕ
  pub wr : W

-- `flush`: "n < b.n && err == nil" is io.ErrShortWrite.
abbrev pub with_short : ℕ → ℕ → Option IoError → Option IoError
with_short n k e = if ltb n k && is_none e then some short_write else e

module _ {W : Type 0} where
  -- For an `io.Writer` that is no `*Writer` itself.
  unfoldable pub new_writer_size : W → ℤ → Writer W
  new_writer_size w size = record {
    err = none;
    buf =
        replicate
          (elim size [
            | negsuc k ↦ default_buf_size
            | pos k ↦ if k == 0 then default_buf_size else k
          ])
          0;
    n = 0;
    wr = w;
  }

  unfoldable pub new_writer : W → Writer W
  unfolding new_writer_size
  new_writer w = new_writer_size w (pos default_buf_size)

  unfoldable pub reset : Writer W → W → Writer W
  reset b w = record b { err = none; n = 0; wr = w }

  unfoldable pub reset_buffer : Writer W → W → Bytes → Writer W
  reset_buffer b w buf = record b { buf = buf; err = none; n = 0; wr = w }

  abbrev pub available : Writer W → ℕ
  available b = length b.buf - b.n

  abbrev pub buffered : Writer W → ℕ
  buffered b = b.n

  abbrev pub pending : Writer W → Bytes
  pending b = take b.n b.buf

  -- `n := copy(b.buf[b.n:], p); b.n += n`
  abbrev pub append_part : Bytes → Writer W → ℕ × Writer W
  append_part p b =
      let k = min (available b) (length p) in
      (k, record b { buf = copy_at b.buf b.n p; n = b.n + k })

  -- `flush` after the client's `Write` returned `n` and `e`
  unfoldable pub after_write : Writer W → ℕ × Option IoError × W → Option IoError × Writer W
  after_write b (k, e, s) =
      let e' = with_short k b.n e in
      if is_none e' then (none, record b { n = 0; wr = s }) else (
        e',
        record {
          err = e';
          buf = (if ltb 0 k && ltb k b.n then copy b.buf (slice b.buf k b.n) else b.buf);
          n = b.n - k;
          wr = s;
        },
      )

module _ {W : Type 0} (write : Write W) where
  unfoldable pub flush : Writer W → Option IoError × Writer W
  unfolding after_write
  flush b =
      if not (is_none b.err)
      then (b.err, b)
      else if b.n == 0
      then (none, b)
      else after_write b (write b.wr (pending b))

  -- one round of the loop of `Write`: the count and the writer
  unfoldable pub write_round : Bytes → Writer W → ℕ × Writer W
  unfolding flush
  write_round p b =
      if buffered b == 0
      then (let (k, e, s) = write b.wr p in (k, record b { err = e; wr = s }))
      else (let (k, b') = append_part p b in (k, (flush b').1))

  -- the loop of `Write`, and what follows it
  unfoldable pub write_loop : ℕ → ℕ → Bytes → Writer W → Outcome (ℕ × Option IoError × Writer W)
  unfolding write_round
  write_loop zero nn p b = hangs
  write_loop (suc f) nn p b =
      let more = (let (k, b') = write_round p b in write_loop f (nn + k) (drop k p) b') in
      if ltb (available b) (length p) && is_none b.err
      then more
      else if not (is_none b.err)
      then done (nn, b.err, b)
      else (let (k, b') = append_part p b in done (nn + k, none, b'))

  unfoldable pub write_bytes : Bytes → Writer W → Outcome (ℕ × Option IoError × Writer W)
  unfolding write_loop
  write_bytes p b = write_loop 3 0 p b

  unfoldable pub write_raw : Bytes → Writer W → Outcome (ℕ × Option IoError × Writer W)
  unfolding write_bytes
  write_raw p b =
      if not (is_none b.err)
      then done (0, b.err, b)
      else if buffered b == 0
      then (let (k, e, s) = write b.wr p in done (k, e, record b { err = e; wr = s }))
      else write_bytes p b

  -- the loop of the writer's `Peek`
  unfoldable pub make_room : ℕ → ℕ → Writer W → Outcome (Writer W)
  unfolding flush
  make_room zero n b = hangs
  make_room (suc f) n b =
      let more = make_room f n (flush b).1 in
      if ltb (available b) n && is_none b.err then more else done b

  -- `Peek`: where the slice `b.buf[b.n:b.n+n]` begins, for the caller to fill
  unfoldable pub peek : ℤ → Writer W → Outcome (ℕ × Option IoError × Writer W)
  unfolding make_room
  peek (negsuc k) b = done (0, some negative_count, b)
  peek (pos k) b =
      if ltb (length b.buf) k
      then done (0, some buffer_full, b)
      else make_room 2 k b >>= λ b'.
          if not (is_none b'.err)
          then done (0, b'.err, b')
          else done (b'.n, none, record b' { n = b'.n + k })

  -- the loop of `WriteString`, and what follows it
  unfoldable pub write_string_loop :
      ℕ → ℕ → Bytes → Writer W → Outcome (ℕ × Option IoError × Writer W)
  unfolding flush
  write_string_loop zero nn p b = hangs
  write_string_loop (suc f) nn p b =
      let more =
        (let (k, b') = append_part p b in write_string_loop f (nn + k) (drop k p) (flush b').1) in
      if ltb (available b) (length p) && is_none b.err
      then more
      else if not (is_none b.err)
      then done (nn, b.err, b)
      else (let (k, b') = append_part p b in done (nn + k, none, b'))

  unfoldable pub write_string : Bytes → Writer W → Outcome (ℕ × Option IoError × Writer W)
  unfolding write_string_loop
  write_string p b = write_string_loop (length p + 2) 0 p b
