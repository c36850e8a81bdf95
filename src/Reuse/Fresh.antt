-- ===== src/Reuse/Fresh.antt =====
-- The pools of server/mqtt/server.go: what a reader or a writer from a pool has in common with a new
-- one.
use kratos_transport_rpc.Prelude.{
  ℕ, zero, suc, ◌-◌, ◌<◌, ◌≡◌, refl, sym, ◌∙◌, Option, none, some, List, [], ◌∷◌, length,
  length-replicate, arith,
}
use kratos_transport_rpc.Prelude.Int.{ℤ, pos, negsuc}
use kratos_transport_rpc.Bufio.Reader.{Reader, new_reader, reset_reader, avail}
use kratos_transport_rpc.Bufio.Writer.{Writer, new_writer_size, reset, pending}
use kratos_transport_rpc.Reuse.{
  get_at, Pools, WriterPool, writer2k, writer4k, bufio_writer_pool, writers, with_writers,
  reader_from, new_bufio_reader, writer_from, new_writer_in, new_bufio_writer_size, put_in,
  put_bufio_reader, put_bufio_writer,
}

-- What can happen to the pools. Readers and writers that are given back are in any state, with
-- errors and bytes that were not flushed.
pub data Step {S W : Type 0} (no_source : S) (no_sink : W) : Pools S W → Pools S W → Type 0 where
  got_reader :
      (ps : Pools S W) (i : ℕ) (rd : S) → Step no_source no_sink ps (new_bufio_reader i rd ps).1
  got_writer :
      (ps : Pools S W) (i : ℕ) (w : W) (size : ℤ)
      → Step no_source no_sink ps (new_bufio_writer_size i w size ps).1
  gave_reader :
      (ps : Pools S W) (br : Reader S)
      → 0 < length br.buf
      → Step no_source no_sink ps (put_bufio_reader no_source no_sink br ps)
  gave_writer :
      (ps : Pools S W) (bw : Writer W)
      → Step no_source no_sink ps (put_bufio_writer no_source no_sink bw ps)
  lost_reader :
      (ps : Pools S W) (i : ℕ)
      → Step no_source no_sink ps
          (record ps { bufio_reader_pool = (get_at i ps.bufio_reader_pool).1 })
  lost_writer :
      (ps : Pools S W) (pool : WriterPool) (i : ℕ)
      → Step no_source no_sink ps (with_writers pool (get_at i (writers pool ps)).1 ps)

pub data Reached {S W : Type 0} (no_source : S) (no_sink : W) : Pools S W → Type 0 where
  empty :
      Reached no_source no_sink
        (record { bufio_reader_pool = []; bufio_writer2k_pool = []; bufio_writer4k_pool = [] })
  then_step :
      {ps ps1 : Pools S W}
      → Reached no_source no_sink ps
      → Step no_source no_sink ps ps1
      → Reached no_source no_sink ps1

abbrev pub All : {A : Type 0} → (A → Type 0) → List A → Type 0
All P [] = Unit
All P (x ∷ xs) = P x × All P xs

abbrev pub size_of : WriterPool → ℕ
size_of writer2k = 2048
size_of writer4k = 4096

-- The writers of a pool are all of its size.
pub record Kept {S W : Type 0} (ps : Pools S W) : Type 0 where
  pub some_room : All (λ br. 0 < length br.buf) ps.bufio_reader_pool
  pub sized2k : All (λ bw. length bw.buf ≡ 2048) ps.bufio_writer2k_pool
  pub sized4k : All (λ bw. length bw.buf ≡ 4096) ps.bufio_writer4k_pool

sized :
    {S W : Type 0} (ps : Pools S W) (pool : WriterPool)
    → Kept ps
    → All (λ bw. length bw.buf ≡ size_of pool) (writers pool ps)
sized ps writer2k kept = kept.sized2k
sized ps writer4k kept = kept.sized4k

All-get_at : {A : Type 0} (P : A → Type 0) (i : ℕ) (xs : List A) → All P xs → All P (get_at i xs).1
unfolding get_at
All-get_at P i [] h = h
All-get_at P zero (x ∷ xs) h = h.1
All-get_at P (suc i) (x ∷ xs) h = (h.0, All-get_at P i xs h.1)

abbrev OfSome : {A : Type 0} → (A → Type 0) → Option A → Type 0
OfSome P none = Unit
OfSome P (some a) = P a

OfSome-get_at :
    {A : Type 0} (P : A → Type 0) (i : ℕ) (xs : List A) → All P xs → OfSome P (get_at i xs).0
unfolding get_at
OfSome-get_at P i [] h = tt
OfSome-get_at P zero (x ∷ xs) h = h.0
OfSome-get_at P (suc i) (x ∷ xs) h = OfSome-get_at P i xs h.1

-- the pool for a size has writers of that size
bufio_writer_pool_lem :
    (size : ℤ) → OfSome (λ pool. size ≡ pos (size_of pool)) (bufio_writer_pool size)
unfolding bufio_writer_pool
bufio_writer_pool_lem (negsuc k) = tt
bufio_writer_pool_lem (pos k) = ground arith

bufio_writer_pool-empty :
    (n : ℕ) → OfSome (λ pool. n ≡ size_of pool) (bufio_writer_pool (pos (n - 0)))
unfolding bufio_writer_pool
bufio_writer_pool-empty n = ground arith

module _ {S W : Type 0} where
  with_writers-sized :
      (ps : Pools S W) (pool : WriterPool) (bs : List (Writer W))
      → Kept ps
      → All (λ bw. length bw.buf ≡ size_of pool) bs
      → Kept (with_writers pool bs ps)
  with_writers-sized ps writer2k bs kept h = record {
    some_room = kept.some_room;
    sized2k = h;
    sized4k = kept.sized4k;
  }
  with_writers-sized ps writer4k bs kept h = record {
    some_room = kept.some_room;
    sized2k = kept.sized2k;
    sized4k = h;
  }

  new_writer_in-Kept :
      (pool : Option WriterPool) (i : ℕ) (w : W) (size : ℤ) (ps : Pools S W)
      → Kept ps
      → Kept (new_writer_in pool i w size ps).1
  unfolding new_writer_in
  new_writer_in-Kept none i w size ps kept = kept
  new_writer_in-Kept (some pool) i w size ps kept =
      with_writers-sized ps pool (get_at i (writers pool ps)).1 kept
        (All-get_at (λ bw. length bw.buf ≡ size_of pool) i (writers pool ps) (sized ps pool kept))

  put_in-Kept :
      (pool : Option WriterPool) (bw : Writer W) (ps : Pools S W)
      → Kept ps
      → OfSome (λ p. length bw.buf ≡ size_of p) pool
      → Kept (put_in pool bw ps)
  unfolding put_in
  put_in-Kept none bw ps kept h = kept
  put_in-Kept (some pool) bw ps kept h =
      with_writers-sized ps pool (bw ∷ writers pool ps) kept (h, sized ps pool kept)

-- What a client sees of a writer that it gets.
abbrev FreshWriter : {W : Type 0} → W → ℤ → Writer W → Type 0
FreshWriter w size b =
    (length b.buf ≡ length (new_writer_size w size).buf)
    × (pending b ≡ [])
    × (b.err ≡ none)
    × (b.wr ≡ w)

abbrev FreshReader : {S : Type 0} → S → Reader S → Type 0
FreshReader rd b = (0 < length b.buf) × (avail b ≡ []) × (b.err ≡ none) × (b.rd ≡ rd)

length_new :
    {W : Type 0} (w : W) (pool : WriterPool)
    → length (new_writer_size w (pos (size_of pool))).buf ≡ size_of pool
unfolding new_writer_size
length_new w writer2k = length-replicate {A = ℕ} 2048 0
length_new w writer4k = length-replicate {A = ℕ} 4096 0

writer_from-fresh :
    {W : Type 0} (w : W) (size : ℤ) (pool : WriterPool) (v : Option (Writer W))
    → size ≡ pos (size_of pool)
    → OfSome (λ bw. length bw.buf ≡ size_of pool) v
    → FreshWriter w size (writer_from w size v)
unfolding writer_from new_writer_size reset
writer_from-fresh w size pool none e h = (refl, refl, refl, refl)
writer_from-fresh w size pool (some bw) e h = (rw e (h ∙ sym (length_new w pool)), refl, refl, refl)

reader_from-fresh :
    {S : Type 0} (rd : S) (v : Option (Reader S))
    → OfSome (λ br. 0 < length br.buf) v
    → FreshReader rd (reader_from rd v)
unfolding reader_from reset_reader new_reader
reader_from-fresh rd none h = (omega arith, refl, refl, refl)
reader_from-fresh rd (some br) h = (h, refl, refl, refl)

new_writer_in-fresh :
    {S W : Type 0} (pool : Option WriterPool) (i : ℕ) (w : W) (size : ℤ) (ps : Pools S W)
    → Kept ps
    → OfSome (λ p. size ≡ pos (size_of p)) pool
    → FreshWriter w size (new_writer_in pool i w size ps).0
unfolding new_writer_in writer_from new_writer_size
new_writer_in-fresh none i w size ps kept e = (refl, refl, refl, refl)
new_writer_in-fresh (some pool) i w size ps kept e =
    writer_from-fresh w size pool (get_at i (writers pool ps)).0 e
      (OfSome-get_at (λ bw. length bw.buf ≡ size_of pool) i (writers pool ps) (sized ps pool kept))

module _ {S W : Type 0} (no_source : S) (no_sink : W) where
  put_bufio_writer-Kept :
      (bw : Writer W) (ps : Pools S W) → Kept ps → Kept (put_bufio_writer no_source no_sink bw ps)
  unfolding put_bufio_writer reset
  put_bufio_writer-Kept bw ps kept =
      put_in-Kept (bufio_writer_pool (pos (length bw.buf - 0))) (reset bw no_sink) ps kept
        (bufio_writer_pool-empty (length bw.buf))

  Step-Kept : (ps ps1 : Pools S W) → Step no_source no_sink ps ps1 → Kept ps → Kept ps1
  unfolding new_bufio_reader new_bufio_writer_size put_bufio_reader reset_reader
  Step-Kept ps _ (got_reader _ i rd) kept = record {
    some_room = All-get_at (λ br. 0 < length br.buf) i ps.bufio_reader_pool kept.some_room;
    sized2k = kept.sized2k;
    sized4k = kept.sized4k;
  }
  Step-Kept ps _ (got_writer _ i w size) kept =
      new_writer_in-Kept (bufio_writer_pool size) i w size ps kept
  Step-Kept ps _ (gave_reader _ br room) kept = record {
    some_room = (room, kept.some_room);
    sized2k = kept.sized2k;
    sized4k = kept.sized4k;
  }
  Step-Kept ps _ (gave_writer _ bw) kept = put_bufio_writer-Kept bw ps kept
  Step-Kept ps _ (lost_reader _ i) kept = record {
    some_room = All-get_at (λ br. 0 < length br.buf) i ps.bufio_reader_pool kept.some_room;
    sized2k = kept.sized2k;
    sized4k = kept.sized4k;
  }
  Step-Kept ps _ (lost_writer _ pool i) kept =
      with_writers-sized ps pool (get_at i (writers pool ps)).1 kept
        (All-get_at (λ bw. length bw.buf ≡ size_of pool) i (writers pool ps) (sized ps pool kept))

  Reached-Kept : (ps : Pools S W) → Reached no_source no_sink ps → Kept ps
  Reached-Kept _ empty = record { some_room = tt; sized2k = tt; sized4k = tt }
  Reached-Kept _ (then_step {ps} {ps1} before step) = Step-Kept ps ps1 step (Reached-Kept ps before)

  -- Whatever readers and writers have been given back, in whatever state, and whichever item of a
  -- pool is taken, a writer of newBufioWriterSize has the size of a new one for that size, no
  -- pending bytes and no error, and writes to the given destination; a reader of newBufioReader has
  -- room, no bytes and no error, and reads from the given source. The readers that are given back
  -- have room.
  pub Reached-fresh :
      (ps : Pools S W)
      → Reached no_source no_sink ps
      → ((i : ℕ) (w : W) (size : ℤ)
          → (length (new_bufio_writer_size i w size ps).0.buf ≡ length (new_writer_size w size).buf)
            × (pending (new_bufio_writer_size i w size ps).0 ≡ [])
            × ((new_bufio_writer_size i w size ps).0.err ≡ none)
            × ((new_bufio_writer_size i w size ps).0.wr ≡ w))
        × ((i : ℕ) (rd : S)
            → (0 < length (new_bufio_reader i rd ps).0.buf)
              × (avail (new_bufio_reader i rd ps).0 ≡ [])
              × ((new_bufio_reader i rd ps).0.err ≡ none)
              × ((new_bufio_reader i rd ps).0.rd ≡ rd))
  unfolding new_bufio_writer_size new_bufio_reader
  Reached-fresh ps reached =
      let kept = Reached-Kept ps reached in
      (
        λ i w size.
            new_writer_in-fresh (bufio_writer_pool size) i w size ps kept
              (bufio_writer_pool_lem size),
        λ i rd.
            reader_from-fresh rd (get_at i ps.bufio_reader_pool).0
              (OfSome-get_at (λ br. 0 < length br.buf) i ps.bufio_reader_pool kept.some_room),
      )
