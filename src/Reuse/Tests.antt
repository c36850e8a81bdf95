-- ===== src/Reuse/Tests.antt =====
-- The pools of server/mqtt/server.go with a writer of 4096 bytes that is given back with 2048 bytes
-- that were not flushed and an error. Sources and destinations are numbers.
use kratos_transport_rpc.Prelude.{ℕ, ◌≡◌, refl, ◌<◌, none, some, [], length, replicate, arith}
use kratos_transport_rpc.Prelude.Int.{ℤ, pos}
use kratos_transport_rpc.Io.{short_write}
use kratos_transport_rpc.Bufio.Reader.{avail, new_reader}
use kratos_transport_rpc.Bufio.Writer.{Writer, new_writer_size, pending}
use kratos_transport_rpc.Reuse.{
  Pools, new_bufio_reader, new_bufio_writer_size, put_bufio_writer, put_bufio_reader,
}
use kratos_transport_rpc.Reuse.Fresh.{
  Reached, empty, then_step, gave_reader, gave_writer, Reached-fresh,
}

abbrev used : Writer ℕ
used = record { err = some short_write; buf = replicate 4096 7; n = 2048; wr = 5 }

abbrev nothing : Pools ℕ ℕ
nothing = record { bufio_reader_pool = []; bufio_writer2k_pool = []; bufio_writer4k_pool = [] }

abbrev pools : Pools ℕ ℕ
pools = put_bufio_reader 0 0 (new_reader 3) (put_bufio_writer 0 0 used nothing)

new_reader-room : 0 < length (new_reader {S = ℕ} 3).buf
unfolding new_reader
new_reader-room = omega arith

given_back : Reached 0 0 pools
given_back =
    then_step (then_step empty (gave_writer nothing used))
      (gave_reader (put_bufio_writer 0 0 used nothing) (new_reader 3) new_reader-room)

Reached-fresh_example :
    ((i w : ℕ) (size : ℤ)
      → (length (new_bufio_writer_size i w size pools).0.buf ≡ length (new_writer_size w size).buf)
        × (pending (new_bufio_writer_size i w size pools).0 ≡ [])
        × ((new_bufio_writer_size i w size pools).0.err ≡ none)
        × ((new_bufio_writer_size i w size pools).0.wr ≡ w))
    × ((i rd : ℕ)
        → (0 < length (new_bufio_reader i rd pools).0.buf)
          × (avail (new_bufio_reader i rd pools).0 ≡ [])
          × ((new_bufio_reader i rd pools).0.err ≡ none)
          × ((new_bufio_reader i rd pools).0.rd ≡ rd))
Reached-fresh_example = Reached-fresh 0 0 pools given_back

-- The writer goes into the pool of its size, and comes back from it.
reused : (new_bufio_writer_size 0 9 (pos 4096) pools).0.buf ≡ replicate 4096 7
unfolding new_bufio_writer_size put_bufio_writer put_bufio_reader
reused = refl
