-- ===== src/Reuse.antt =====
-- The pools of readers and writers of server/mqtt/server.go. A `sync.Pool` is the list of what it
-- keeps. `Get` may take any of these or nothing, which the position i, an argument of each call,
-- says, and the pool may lose what it keeps at any time. S and W are the states of the sources and
-- destinations, and `no_source` and `no_sink` stand for nil.
pub mod Fresh
mod Tests
use kratos_transport_rpc.Prelude.{
  ℕ, zero, suc, Option, none, some, List, [], ◌∷◌, ◌==◌, if◌then◌else◌,
}
use kratos_transport_rpc.Prelude.Int.{ℤ, pos, negsuc}
use kratos_transport_rpc.Bufio.Reader.{Reader, new_reader, reset_reader}
use kratos_transport_rpc.Bufio.Writer.{Writer, new_writer_size, reset, available}

-- `Get` of a pool without `New`: the item at position i, and what is left
unfoldable pub get_at : {A : Type 0} → ℕ → List A → Option A × List A
get_at i [] = (none, [])
get_at zero (x ∷ xs) = (some x, xs)
get_at (suc i) (x ∷ xs) = let (a, rest) = get_at i xs in (a, x ∷ rest)

pub record Pools (S W : Type 0) : Type 0 where
  pub bufio_reader_pool : List (Reader S)
  pub bufio_writer2k_pool : List (Writer W)
  pub bufio_writer4k_pool : List (Writer W)

pub data WriterPool : Type 0 where
  writer2k writer4k : WriterPool

-- `bufioWriterPool`
unfoldable pub bufio_writer_pool : ℤ → Option WriterPool
bufio_writer_pool (negsuc k) = none
bufio_writer_pool (pos size) =
    if size == 2048 then some writer2k else if size == 4096 then some writer4k else none

-- what the reader pool's `Get` gave, or a new reader
unfoldable pub reader_from : {S : Type 0} → S → Option (Reader S) → Reader S
unfolding reset_reader new_reader
reader_from rd none = new_reader rd
reader_from rd (some br) = reset_reader br rd

-- what a writer pool's `Get` gave, or a new writer
unfoldable pub writer_from : {W : Type 0} → W → ℤ → Option (Writer W) → Writer W
unfolding reset new_writer_size
writer_from w size none = new_writer_size w size
writer_from w size (some bw) = reset bw w

module _ {S W : Type 0} where
  abbrev pub writers : WriterPool → Pools S W → List (Writer W)
  writers writer2k ps = ps.bufio_writer2k_pool
  writers writer4k ps = ps.bufio_writer4k_pool

  abbrev pub with_writers : WriterPool → List (Writer W) → Pools S W → Pools S W
  with_writers writer2k bs ps = record ps { bufio_writer2k_pool = bs }
  with_writers writer4k bs ps = record ps { bufio_writer4k_pool = bs }

  -- `newBufioReader`
  unfoldable pub new_bufio_reader : ℕ → S → Pools S W → Reader S × Pools S W
  unfolding get_at reader_from
  new_bufio_reader i rd ps =
      let (v, rest) = get_at i ps.bufio_reader_pool in
      (reader_from rd v, record ps { bufio_reader_pool = rest })

  -- `newBufioWriterSize` with its pool given
  unfoldable pub new_writer_in : Option WriterPool → ℕ → W → ℤ → Pools S W → Writer W × Pools S W
  unfolding get_at writer_from
  new_writer_in none i w size ps = (writer_from w size none, ps)
  new_writer_in (some pool) i w size ps =
      let (v, rest) = get_at i (writers pool ps) in
      (writer_from w size v, with_writers pool rest ps)

  -- `newBufioWriterSize`
  unfoldable pub new_bufio_writer_size : ℕ → W → ℤ → Pools S W → Writer W × Pools S W
  unfolding new_writer_in bufio_writer_pool
  new_bufio_writer_size i w size ps = new_writer_in (bufio_writer_pool size) i w size ps

  -- `pool.Put` of a writer, if there is a pool
  unfoldable pub put_in : Option WriterPool → Writer W → Pools S W → Pools S W
  put_in none bw ps = ps
  put_in (some pool) bw ps = with_writers pool (bw ∷ writers pool ps) ps

  module _ (no_source : S) (no_sink : W) where
    -- `putBufioReader`
    unfoldable pub put_bufio_reader : Reader S → Pools S W → Pools S W
    unfolding reset_reader
    put_bufio_reader br ps = record ps {
      bufio_reader_pool = reset_reader br no_source ∷ ps.bufio_reader_pool;
    }

    -- `putBufioWriter`
    unfoldable pub put_bufio_writer : Writer W → Pools S W → Pools S W
    unfolding reset bufio_writer_pool put_in
    put_bufio_writer bw ps =
        let emptied = reset bw no_sink in
        put_in (bufio_writer_pool (pos (available emptied))) emptied ps
