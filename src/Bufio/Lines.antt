-- ===== src/Bufio/Lines.antt =====
-- server/mqtt/bufio/bufio.go: ReadSlice and ReadLine of type Reader.
pub mod Slice
pub mod Strip
pub mod Line
pub mod Whole
pub mod Exact
pub mod Progress
use kratos_transport_rpc.Prelude.{
  ℕ, zero, suc, ◌+◌, ◌-◌, Bool, true, false, ◌&&◌, not, Option, none, some, [], ◌∷◌, Bytes, length,
  get_or, take, slice, index_byte, ltb, leb, ◌==◌, if◌then◌else◌,
}
use kratos_transport_rpc.Io.{
  IoError, buffer_full, rewind, Outcome, done, panics, hangs, ◌>>=◌, Read, is_none, is_buffer_full,
}
use kratos_transport_rpc.Bufio.Reader.{Reader, Result, buffered, avail, fill}

-- `line[len(line)-1] == c`, false on an empty line
abbrev pub ends_with : ℕ → Bytes → Bool
ends_with c line = ltb 0 (length line) && get_or line (length line - 1) 0 == c

-- `ReadLine` drops "\n" or "\r\n".
unfoldable pub strip_eol : Bytes → Bytes
strip_eol line =
    if ends_with b'\n' line
    then (let drop =
          (if ltb 1 (length line) && get_or line (length line - 2) 0 == b'\r' then 2 else 1) in
        take (length line - drop) line)
    else line

abbrev pub LineResult : Type 0 → Type 0
LineResult S = Outcome (Bytes × Bool × Option IoError × Reader S)

module _ {S : Type 0} where
  -- `ReadLine` behind its call of `ReadSlice`
  unfoldable pub finish_line : Bytes → Option IoError → Reader S → LineResult S
  unfolding strip_eol
  finish_line line e b =
      if is_buffer_full e
      then if ends_with b'\r' line
        then if b.r == 0
          then panics rewind
          else done (take (length line - 1) line, true, none, record b { r = b.r - 1 })
        else done (line, true, none, b)
      else if length line == 0
      then done ([], false, e, b)
      else done (strip_eol line, false, none, b)

module _ {S : Type 0} (read : Read S) where
  -- the loop of `ReadSlice`
  unfoldable pub read_slice_loop : ℕ → ℕ → Reader S → Result S
  read_slice_loop zero delim b = hangs
  read_slice_loop (suc f) delim b =
      let more = fill read b >>= read_slice_loop f delim in
      elim (index_byte (avail b) delim) [
        | some i ↦ done (slice b.buf b.r (b.r + (i + 1)), none, record b { r = b.r + (i + 1) })
        | none ↦
            if not (is_none b.err)
            then done (avail b, b.err, record b { r = b.w; err = none })
            else if leb (length b.buf) (buffered b)
            then done (b.buf, some buffer_full, record b { r = b.w })
            else more
      ]

  unfoldable pub read_slice : ℕ → Reader S → Result S
  unfolding read_slice_loop
  read_slice delim b = read_slice_loop (length b.buf + 2) delim b

  unfoldable pub read_line : Reader S → LineResult S
  unfolding read_slice finish_line
  read_line b = read_slice b'\n' b >>= λ (line, e, b'). finish_line line e b'
