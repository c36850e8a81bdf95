-- ===== src/Pool/Tests.antt =====
-- server/mqtt/bytes/buffer.go: runs.
use kratos_transport_rpc.Prelude.{ℕ, ◌≡◌, refl, Option, none, some, [], ◌∷◌, arith}
use kratos_transport_rpc.Io.{done}
use kratos_transport_rpc.Pool.{Buffer, Pool, new_pool, get, put, len}
use kratos_transport_rpc.Pool.Owners.{Owned, made, then_step, took, gave, Run-Owned}

abbrev part : ℕ → ℕ → ℕ → Option ℕ → Buffer
part array start stop next = record { array = array; start = start; stop = stop; next = next }

-- two buffers of 4 bytes
abbrev two : Option ℕ → Pool
two free = record {
  buffers = part 0 0 4 (some 1) ∷ part 0 4 8 none ∷ [];
  arrays = 1;
  free = free;
  max = 8;
  num = 2;
  size = 4;
}

new_pool_runs : new_pool 2 4 ≡ done (two (some 0))
unfolding new_pool
new_pool_runs = refl

len_runs : len (part 0 4 8 none) ≡ 4
unfolding len
len_runs = refl

get_runs : get (two (some 0)) ≡ done (0, two (some 1))
unfolding get
get_runs = refl

get_runs_next : get (two (some 1)) ≡ done (1, two none)
unfolding get
get_runs_next = refl

-- the pool grows
get_runs_grow :
    get (two none)
    ≡ done (
      2,
      record (two (some 3)) {
        buffers =
            part 0 0 4 (some 1) ∷ part 0 4 8 none ∷ part 1 0 4 (some 3) ∷ part 1 4 8 none ∷ [];
        arrays = 2;
      },
    )
unfolding get
get_runs_grow = refl

Run-Owned_example : Owned (put 0 (two none)) (1 ∷ [])
Run-Owned_example = Run-Owned {num = 2} {size = 4} (omega arith) (
    then_step (then_step (then_step (made new_pool_runs) (took get_runs)) (took get_runs_next))
      (gave 0 (1 ∷ []) []))
