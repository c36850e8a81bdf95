-- ===== src/ByteWriter/Append.antt =====
-- The array holds what was written, in order, however often it grew.
use kratos_transport_rpc.Prelude.{
  joined, ℕ, ◌+◌, ◌-◌, ◌*◌, ◌≤◌, ◌≡◌, refl, ap, sym, ◌∙◌, inl, inr, List, [], ◌∷◌, ◌++◌,
  append_assoc, append-nil, Bytes, length, take, replicate, min, length-replicate, length-take,
  length-copy, length-copy_at, length-slice, take-copy_le, take-copy_at, take_all, ltb, Bool-cases,
  ltb→lt, ltb→le, arith,
}
use kratos_transport_rpc.ByteWriter.{ByteWriter, new_writer_size, reset, buffer, grow, peek, write}

abbrev pub IsValid : ByteWriter → Type 0
IsValid w = w.n ≤ length w.buf

-- There is room for n bytes afterwards, at the same position, behind the same bytes.
pub record Grows (n : ℕ) (w after : ByteWriter) : Type 0 where
  pub room : after.n + n ≤ length after.buf
  pub same_n : after.n ≡ w.n
  pub same_buffer : take w.n after.buf ≡ take w.n w.buf
  pub no_shorter : length w.buf ≤ length after.buf

grow-Grows : (n : ℕ) (w : ByteWriter) → IsValid w → Grows n w (grow n w)
unfolding grow
grow-Grows n w v = elim (Bool-cases (ltb (w.n + n) (length w.buf))) [
  | inl fits ↦ rw fits (record {
    room = omega (arith, ltb→lt (w.n + n) (length w.buf) fits);
    same_n = refl;
    same_buffer = refl;
    no_shorter = omega arith;
  })
  | inr full ↦
      let zeros : Bytes = replicate (2 * length w.buf + n) 0 in
      let size = length-copy zeros (take w.n w.buf) ∙ length-replicate (2 * length w.buf + n) 0 in
      rw full (record {
        room = omega (arith, size);
        same_n = refl;
        same_buffer =
            take-copy_le w.n zeros (take w.n w.buf)
              (omega (
                arith,
                length-replicate {A = ℕ} (2 * length w.buf + n) 0,
                ltb→le (w.n + n) (length w.buf) full,
              ))
              (omega (arith, length-take w.n w.buf))
            ∙ take_all w.n (take w.n w.buf) (omega (arith, length-take w.n w.buf));
        no_shorter = omega (arith, size);
      })
]

-- On a valid writer `Write` appends all of `p` to the buffer and keeps the writer valid, whether
-- the array has to grow or not; it never copies only a part.
pub write-buffer :
    (p : Bytes) (w : ByteWriter)
    → IsValid w
    → IsValid (write p w) × (buffer (write p w) ≡ buffer w ++ p)
unfolding write buffer
write-buffer p w v =
    let g = grow-Grows (length p) w v in
    let w1 = grow (length p) w in
    let all : min (length w1.buf - w1.n) (length p) ≡ length p = omega (arith, g.room) in
    (
      omega (arith, g.room, length-copy_at w1.buf w1.n p),
      take-copy_at w1.buf w1.n (w1.n + min (length w1.buf - w1.n) (length p)) p g.room (omega arith)
          ∙ ap (λ (k : ℕ). take k w1.buf ++ p) g.same_n
          ∙ ap (λ l. l ++ p) g.same_buffer,
    )

-- All the pieces, written one after another.
unfoldable pub write_all : List Bytes → ByteWriter → ByteWriter
unfolding write
write_all [] w = w
write_all (p ∷ ps) w = write_all ps (write p w)

all-buffer :
    (ps : List Bytes) (w : ByteWriter)
    → IsValid w
    → IsValid (write_all ps w) × (buffer (write_all ps w) ≡ buffer w ++ joined ps)
unfolding write_all
all-buffer [] w v = (v, sym (append-nil (buffer w)))
all-buffer (p ∷ ps) w v =
    let (v1, eq1) = write-buffer p w v in
    let (v2, eq2) = all-buffer ps (write p w) v1 in
    (v2, eq2 ∙ ap (λ l. l ++ joined ps) eq1 ∙ append_assoc (buffer w) p (joined ps))

-- Whatever is written to a writer of any first size, also after `Reset` of a writer in use,
-- `Buffer` gives it back in order and nothing else.
pub buffer-write_all :
    (n : ℕ) (before ps : List Bytes)
    → buffer (write_all ps (reset (write_all before (new_writer_size n)))) ≡ joined ps
unfolding reset buffer
buffer-write_all n before ps =
    (all-buffer ps (reset (write_all before (new_writer_size n))) (omega arith)).1

-- `Peek(n)` on a valid writer hands out n bytes behind what was written, which it leaves as it
-- is, and counts them as written; the writer is valid afterwards.
pub peek_bytes :
    (n : ℕ) (w : ByteWriter)
    → IsValid w
    → IsValid (peek n w).1
      × ((peek n w).0.0 ≡ w.n)
      × (length (peek n w).0.1 ≡ n)
      × ((peek n w).1.n ≡ w.n + n)
      × (take w.n (peek n w).1.buf ≡ buffer w)
unfolding peek buffer
peek_bytes n w v =
    let g = grow-Grows n w v in
    let w1 = grow n w in
    (
      g.room,
      g.same_n,
      omega (arith, g.room, length-slice w1.buf w1.n (w1.n + n) g.room),
      omega (arith, g.same_n),
      g.same_buffer,
    )

-- The same for a writer that is new.
pub fresh-buffer : (n : ℕ) (ps : List Bytes) → buffer (write_all ps (new_writer_size n)) ≡ joined ps
unfolding new_writer_size buffer
fresh-buffer n ps = (all-buffer ps (new_writer_size n) (omega arith)).1
