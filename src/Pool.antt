-- ===== src/Pool.antt =====
-- server/mqtt/bytes/buffer.go: a pool of buffers with a free list. A `*Buffer` is the address of
-- a buffer, its position in `buffers`, where everything that `grow` has allocated stays; its
-- bytes are a part of one of the arrays that `grow` makes. The lock makes each operation one
-- step.
pub mod Addresses
pub mod Chain
pub mod Owners
mod Tests
use kratos_transport_rpc.Prelude.{
  ℕ, zero, suc, ◌+◌, ◌-◌, ◌*◌, Option, none, some, List, [], ◌∷◌, ◌++◌, length, ◌==◌, if◌then◌else◌,
}
use kratos_transport_rpc.Io.{Outcome, done, panics, slice_bounds, ◌>>=◌}

-- `buf` is array[start:stop].
pub record Buffer : Type 0 where
  pub array : ℕ
  pub start : ℕ
  pub stop : ℕ
  pub next : Option ℕ

pub record Pool : Type 0 where
  pub buffers : List Buffer
  pub arrays : ℕ
  pub free : Option ℕ
  pub max : ℕ
  pub num : ℕ
  pub size : ℕ

-- `Len` and the bounds of `Bytes`
unfoldable pub len : Buffer → ℕ
len b = b.stop - b.start

-- `b.next` of the buffer at an address
unfoldable pub next_of : List Buffer → ℕ → Option ℕ
next_of [] a = none
next_of (b ∷ bs) zero = b.next
next_of (b ∷ bs) (suc a) = next_of bs a

-- `b.next = o`
unfoldable pub set_next : List Buffer → ℕ → Option ℕ → List Buffer
set_next [] a o = []
set_next (b ∷ bs) zero o = record b { next = o } ∷ bs
set_next (b ∷ bs) (suc a) o = b ∷ set_next bs a o

-- the loop of `grow`: the buffers from number i on, k of them and a last one
unfoldable pub chunks : ℕ → ℕ → ℕ → ℕ → ℕ → List Buffer
chunks base array size i zero =
    record { array = array; start = i * size; stop = (i + 1) * size; next = none } ∷ []
chunks base array size i (suc k) =
    record { array = array; start = i * size; stop = (i + 1) * size; next = some (base + i + 1) }
    ∷ chunks base array size (i + 1) k

-- `grow` with `p.num` given: `&bs[0]` panics when it is 0.
unfoldable pub grow_num : ℕ → Pool → Outcome Pool
unfolding chunks
grow_num zero p = panics slice_bounds
grow_num (suc k) p = done (record p {
  buffers = p.buffers ++ chunks (length p.buffers) p.arrays p.size 0 k;
  arrays = p.arrays + 1;
  free = some (length p.buffers);
})

unfoldable pub grow : Pool → Outcome Pool
unfolding grow_num
grow p = grow_num p.num p

unfoldable pub init : ℕ → ℕ → Pool → Outcome Pool
unfolding grow
init num size p = grow (record p { num = num; size = size; max = num * size })

unfoldable pub new_pool : ℕ → ℕ → Outcome Pool
unfolding init
new_pool num size =
    init num size (record { buffers = []; arrays = 0; free = none; max = 0; num = 0; size = 0 })

-- `p.free = b.next`
unfoldable pub pop_free : Pool → ℕ → ℕ × Pool
unfolding next_of
pop_free p a = (a, record p { free = next_of p.buffers a })

-- what `Get` does with `p.free`; `b.next` of a nil `b` would panic
unfoldable pub take_free : Pool → Option ℕ → Outcome (ℕ × Pool)
unfolding pop_free
take_free p none = panics slice_bounds
take_free p (some a) = done (pop_free p a)

-- `Get` with `p.free` given
unfoldable pub get_from : Pool → Option ℕ → Outcome (ℕ × Pool)
unfolding take_free grow
get_from p (some a) = done (pop_free p a)
get_from p none = grow p >>= λ p'. take_free p' p'.free

unfoldable pub get : Pool → Outcome (ℕ × Pool)
unfolding get_from
get p = get_from p p.free

unfoldable pub put : ℕ → Pool → Pool
unfolding set_next
put a p = record p { buffers = set_next p.buffers a p.free; free = some a }
