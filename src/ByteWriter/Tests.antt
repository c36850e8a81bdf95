-- ===== src/ByteWriter/Tests.antt =====
-- server/mqtt/bytes/writer.go: runs.
use kratos_transport_rpc.Prelude.{◌≡◌, refl, [], ◌∷◌, arith}
use kratos_transport_rpc.Prelude.Text.{codes}
use kratos_transport_rpc.ByteWriter.{ByteWriter, new_writer_size, reset, buffer, write, size}
use kratos_transport_rpc.ByteWriter.Append.{IsValid, write_all, write-buffer, buffer-write_all}

abbrev writer : ByteWriter
writer = record { n = 3; buf = codes "abc." }

grows_runs : size (write (codes "de") writer) ≡ 10
unfolding write size
grows_runs = refl

write-buffer_example :
    IsValid (write (codes "de") writer) × (buffer (write (codes "de") writer) ≡ codes "abcde")
unfolding buffer
write-buffer_example = write-buffer (codes "de") writer (omega arith)

buffer-write_all_example :
    buffer (
      write_all
        (codes "new" ∷ codes " text" ∷ [])
        (reset (write_all (codes "old" ∷ []) (new_writer_size 2))))
    ≡ codes "new text"
buffer-write_all_example = buffer-write_all 2 (codes "old" ∷ []) (codes "new" ∷ codes " text" ∷ [])
