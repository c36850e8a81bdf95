-- ===== src/Conn/Tests.antt =====
-- server/mqtt/conn.go: runs on concrete frames.
use kratos_transport_rpc.Prelude.{
  joined, ℕ, ◌≡◌, refl, inl, zero, suc, none, some, true, false, [], ◌∷◌, ◌++◌, Bytes, replicate,
  arith,
}
use kratos_transport_rpc.Prelude.Text.{codes}
use kratos_transport_rpc.Io.{done, Read, message_max_read}
use kratos_transport_rpc.Io.Memory.{
  string_read, string-IsSource, string_error_at_end, string_empty_at_end, buffer_write,
  buffer-IsSink,
}
use kratos_transport_rpc.Bufio.Reader.{Reader, fill, try_fill, pop, read_byte}
use kratos_transport_rpc.Bufio.Reader.Reliable.{IsReliable}
use kratos_transport_rpc.Bufio.Writer.{Writer, new_writer_size, flush}
use kratos_transport_rpc.Bufio.Writer.Flush
use kratos_transport_rpc.Conn.{Conn, write_message, read_frame}
use kratos_transport_rpc.Conn.Message.{read_message}
use kratos_transport_rpc.Conn.Send.{Sends, frame_bytes, write_message_lem}
use kratos_transport_rpc.Conn.Receive.{Ready, read_frame_lem}
use kratos_transport_rpc.Conn.Assemble.{
  continued, Reads, stop, one, frame, read_message-joined, read_message-forgets,
  read_message-refuses,
}
use kratos_transport_rpc.Conn.Total.{IsConn, Framed, read_frame-total}
use kratos_transport_rpc.Conn.Answer.{Answers, read_message-total}
use kratos_transport_rpc.Conn.RoundTrip.{read_message-write_message}

string-IsReliable : IsReliable string_read (λ l. l)
string-IsReliable = record {
  error_at_end = string_error_at_end;
  empty_at_end = string_empty_at_end;
}

abbrev out : Writer Bytes
out = record { err = none; buf = replicate 16 0; n = 0; wr = [] }

-- a connection with a reader of 16 bytes, on which `bytes` come
abbrev conn : Bytes → Conn Bytes Bytes
conn bytes = record {
  r = record { buf = replicate 16 0; rd = bytes; r = 0; w = 0; err = none };
  w = out;
  mask_key = 0 ∷ 0 ∷ 0 ∷ 0 ∷ [];
}

abbrev wrote : Writer Bytes
wrote = record out { buf = 129 ∷ 5 ∷ codes "hello" ++ replicate 9 0; n = 7 }

write_message_runs : write_message buffer_write 1 (codes "hello") out ≡ done (none, wrote)
unfolding write_message kratos_transport_rpc.Bufio.Writer.peek
    kratos_transport_rpc.Bufio.Writer.write_bytes
write_message_runs = refl

abbrev flushed : Writer Bytes
flushed = record wrote { n = 0; wr = 129 ∷ 5 ∷ codes "hello" }

flush_runs : flush buffer_write wrote ≡ (none, flushed)
unfolding flush buffer_write
flush_runs = refl

hello-Ready : Ready (λ l. l) 16 flushed.wr (conn flushed.wr).r
hello-Ready = record { valid = omega arith; settled = λ h. cc; size_eq = refl; stream_eq = refl }

out-IsValid : Flush.IsValid out
out-IsValid = omega arith

read_message-write_message_example :
    (r1 : Reader Bytes) × (read_message string_read buffer_write (conn flushed.wr)
      ≡ done (1, codes "hello", none, record (conn flushed.wr) { r = r1 }))
    × Ready (λ l. l) 16 [] r1
read_message-write_message_example =
    read_message-write_message string_read (λ l. l) string-IsSource string-IsReliable buffer_write
      (λ l. l) buffer-IsSink buffer_write 16 1 (codes "hello") out wrote flushed (conn flushed.wr)
      (inl refl) (omega arith) (omega arith) (omega arith) out-IsValid refl (omega arith)
      write_message_runs flush_runs hello-Ready

write_message_lem_example :
    Sends
      (λ l. l)
      (frame_bytes 1 (codes "hello"))
      out
      (write_message buffer_write 1 (codes "hello") out)
write_message_lem_example =
    write_message_lem buffer_write (λ l. l) buffer-IsSink 1 (codes "hello") out out-IsValid
      (omega arith) (omega arith)

read_frame_lem_example :
    (r1 : Reader Bytes) × (read_frame string_read (conn flushed.wr)
      ≡ done (frame true 1 (codes "hello"), none, record (conn flushed.wr) { r = r1 }))
    × Ready (λ l. l) 16 [] r1
read_frame_lem_example =
    read_frame_lem string_read (λ l. l) string-IsSource string-IsReliable 16 1 (codes "hello") []
      (conn flushed.wr) (omega arith) (omega arith) (omega arith) (omega arith) hello-Ready

conn-IsConn : (bytes : Bytes) → IsConn 16 (conn bytes)
conn-IsConn bytes = record {
  reader = omega arith;
  read_size = refl;
  writer = out-IsValid;
  write_size = omega arith;
}

-- a ping with a mask, whose pong is sent before the source ends
read_frame-total_example :
    Framed 16 (read_frame string_read (conn (137 ∷ 129 ∷ 1 ∷ 2 ∷ 3 ∷ 4 ∷ 104 ∷ [])))
read_frame-total_example =
    read_frame-total string_read (λ l. l) string-IsSource 16
      (conn (137 ∷ 129 ∷ 1 ∷ 2 ∷ 3 ∷ 4 ∷ 104 ∷ [])) (conn-IsConn _)

read_message-total_example :
    Answers 16 (read_message string_read buffer_write (conn (137 ∷ 129 ∷ 1 ∷ 2 ∷ 3 ∷ 4 ∷ 104 ∷ [])))
read_message-total_example =
    read_message-total string_read buffer_write (λ l. l) string-IsSource (λ l. l) buffer-IsSink 16
      (omega arith) (conn (137 ∷ 129 ∷ 1 ∷ 2 ∷ 3 ∷ 4 ∷ 104 ∷ [])) (conn-IsConn _)

abbrev ended : Bytes → ℕ → Conn Bytes Bytes
ended buf n = record (conn []) { r = record { buf = buf; rd = []; r = n; w = n; err = none } }

-- "he" and "y" in two frames
in_two :
    Reads {W = Bytes} string_read
      (conn (1 ∷ 2 ∷ 104 ∷ 101 ∷ 128 ∷ 1 ∷ 121 ∷ []))
      (frame false 1 (codes "he") ∷ frame true 0 (codes "y") ∷ [])
      (ended (1 ∷ 2 ∷ 104 ∷ 101 ∷ 128 ∷ 1 ∷ 121 ∷ replicate 9 0) 7)
unfolding read_frame pop read_byte fill try_fill string_read
in_two = one refl (one refl stop)

read_message-joined_example :
    read_message string_read buffer_write (conn (1 ∷ 2 ∷ 104 ∷ 101 ∷ 128 ∷ 1 ∷ 121 ∷ []))
    ≡ done (1, codes "hey", none, ended (1 ∷ 2 ∷ 104 ∷ 101 ∷ 128 ∷ 1 ∷ 121 ∷ replicate 9 0) 7)
unfolding continued
read_message-joined_example =
    read_message-joined string_read buffer_write 1 (codes "he") (codes "y") []
      (conn (1 ∷ 2 ∷ 104 ∷ 101 ∷ 128 ∷ 1 ∷ 121 ∷ []))
      (ended (1 ∷ 2 ∷ 104 ∷ 101 ∷ 128 ∷ 1 ∷ 121 ∷ replicate 9 0) 7) (inl refl) (omega arith)
      (omega arith) in_two

empty_first :
    Reads {W = Bytes} string_read
      (conn (1 ∷ 0 ∷ 128 ∷ 1 ∷ 121 ∷ []))
      (frame false 1 [] ∷ frame true 0 (codes "y") ∷ [])
      (ended (1 ∷ 0 ∷ 128 ∷ 1 ∷ 121 ∷ replicate 11 0) 5)
unfolding read_frame pop read_byte fill try_fill string_read
empty_first = one refl (one refl stop)

read_message-forgets_example :
    read_message string_read buffer_write (conn (1 ∷ 0 ∷ 128 ∷ 1 ∷ 121 ∷ []))
    ≡ done (0, codes "y", none, ended (1 ∷ 0 ∷ 128 ∷ 1 ∷ 121 ∷ replicate 11 0) 5)
read_message-forgets_example =
    read_message-forgets string_read buffer_write 1 (codes "y") (conn (1 ∷ 0 ∷ 128 ∷ 1 ∷ 121 ∷ []))
      (ended (1 ∷ 0 ∷ 128 ∷ 1 ∷ 121 ∷ replicate 11 0) 5) (inl refl) empty_first

-- a source of zeros that has no end
zeros : Read Unit
zeros s k = (some (replicate k 0), none, s)

abbrev zero_conn : Bytes → ℕ → Conn Unit Bytes
zero_conn buf n = record {
  r = record { buf = buf; rd = tt; r = n; w = 2; err = none };
  w = out;
  mask_key = [];
}

zero_frames :
    (n : ℕ)
    → Reads zeros
        (zero_conn (0 ∷ 0 ∷ []) 2)
        (continued (replicate n []) none)
        (zero_conn (0 ∷ 0 ∷ []) 2)
unfolding continued zeros read_frame fill try_fill read_byte
zero_frames zero = stop
zero_frames (suc n) = one refl (zero_frames n)

never_final :
    Reads zeros
      (zero_conn (1 ∷ 0 ∷ []) 0)
      (frame false 1 [] ∷ continued (replicate 101 []) none)
      (zero_conn (0 ∷ 0 ∷ []) 2)
unfolding continued zeros read_frame fill try_fill read_byte
never_final =
    one {c1 = zero_conn (1 ∷ 0 ∷ []) 2} refl
      (one {c1 = zero_conn (0 ∷ 0 ∷ []) 2} refl (zero_frames 100))

read_message-refuses_example :
    read_message zeros buffer_write (zero_conn (1 ∷ 0 ∷ []) 0)
    ≡ done (0, joined (replicate 101 []), some message_max_read, zero_conn (0 ∷ 0 ∷ []) 2)
read_message-refuses_example =
    read_message-refuses zeros buffer_write 1 [] (replicate 101 []) (zero_conn (1 ∷ 0 ∷ []) 0)
      (zero_conn (0 ∷ 0 ∷ []) 2) (inl refl) refl never_final
