-- ===== src/Bufio/Tests.antt =====
-- Runs of the reader and the writer, and the theorems at concrete inputs.
use kratos_transport_rpc.Prelude.{◌≡◌, refl, [], none, some, Bytes, index_byte, true, false, arith}
use kratos_transport_rpc.Prelude.Text.{codes}
use kratos_transport_rpc.Prelude.Int.{pos}
use kratos_transport_rpc.Io.{buffer_full, done}
use kratos_transport_rpc.Io.Memory.{string_read, string-IsSource, buffer_write, buffer-IsSink}
use kratos_transport_rpc.Bufio.Reader.{Reader, fill, try_fill, peek}
use kratos_transport_rpc.Bufio.Reader.Fill.{IsValid}
use kratos_transport_rpc.Bufio.Reader.Advance.{Peeks, peek_lem}
use kratos_transport_rpc.Bufio.Lines.{read_slice, read_line}
use kratos_transport_rpc.Bufio.Lines.Slice.{Cuts, read_slice_lem}
use kratos_transport_rpc.Bufio.Lines.Line.{Reads, read_line_lem}
use kratos_transport_rpc.Bufio.Writer.{Writer, write_bytes}
use kratos_transport_rpc.Bufio.Writer.Flush
use kratos_transport_rpc.Bufio.Writer.Flush.{Flushes, flush_lem}
use kratos_transport_rpc.Bufio.Writer.Append.{write_bytes_lem}
use kratos_transport_rpc.Bufio.Writer.Round.{Writes}

-- a buffer of 16 bytes, of which four are unread
abbrev reader : Reader Bytes
reader = record {
  buf = codes "GET .abc........";
  rd = codes "d\r\nsecond line";
  r = 5;
  w = 8;
  err = none;
}

abbrev writer : Writer Bytes
writer = record { err = none; buf = codes "abc....."; n = 3; wr = codes "sent" }

reader-IsValid : IsValid reader
reader-IsValid = omega arith

writer-IsValid : Flush.IsValid writer
writer-IsValid = omega arith

read_line_runs :
    read_line string_read reader
    ≡ done (
      codes "abcd",
      false,
      none,
      record { buf = codes "abcd\r\nsecond lin"; rd = codes "e"; r = 6; w = 16; err = none },
    )
unfolding read_line index_byte fill try_fill string_read
read_line_runs = refl

-- "\r\n" straddles the end of the buffer
straddles :
    read_line string_read (record reader { buf = codes "abc."; r = 0; w = 3; rd = codes "\r\nx" })
    ≡ done (
      codes "abc",
      true,
      none,
      record { buf = codes "abc\r"; rd = codes "\nx"; r = 3; w = 4; err = none },
    )
unfolding read_line index_byte fill try_fill string_read
straddles = refl

peek_too_much : peek string_read (pos 17) reader ≡ done ([], some buffer_full, reader)
unfolding peek
peek_too_much = refl

peek_lem_example : Peeks string_read (λ l. l) reader 5
peek_lem_example =
    peek_lem string_read (λ l. l) string-IsSource reader 5 reader-IsValid (omega arith)

read_slice_lem_example : Cuts (λ l. l) b'\n' reader (read_slice string_read b'\n' reader)
read_slice_lem_example =
    read_slice_lem string_read (λ l. l) string-IsSource b'\n' reader reader-IsValid

read_line_lem_example : Reads (λ l. l) reader (read_line string_read reader)
read_line_lem_example = read_line_lem string_read (λ l. l) string-IsSource reader reader-IsValid

write_bytes_lem_example :
    Writes
      (λ l. l)
      0
      (codes "a longer text")
      writer
      (write_bytes buffer_write (codes "a longer text") writer)
write_bytes_lem_example =
    write_bytes_lem buffer_write (λ l. l) buffer-IsSink (codes "a longer text") writer
      writer-IsValid
