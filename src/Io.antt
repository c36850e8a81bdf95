-- ===== src/Io.antt =====
-- What the components share about input and output: the error values of the packages, the
-- outcome of a call (a result, a panic, or a loop that its fuel does not see end), and the
-- interfaces `io.Reader` and `io.Writer`, whose implementations are parameters of the model.
pub mod Memory
use kratos_transport_rpc.Prelude.{
  ℕ, ◌≤◌, ◌<◌, Option, none, some, Bytes, length, take, ◌++◌, ◌≡◌, ◌≢◌, refl, Bool, true, false,
}

-- The error variables of io, bufio, chunked.go, conn.go and request.go; `other` is an error that
-- an implementation of an interface returns.
pub data IoError : Type 0 where
  eof unexpected_eof no_progress short_write buffer_full negative_count : IoError
  line_too_long malformed_chunk invalid_chunk_byte chunk_too_large : IoError
  message_close message_max_read reserved_bits unknown_message : IoError
  malformed_request malformed_header : IoError
  other : ℕ → IoError

pub data Panic : Type 0 where
  negative_read full_buffer rewind slice_bounds index_bounds nil_pointer : Panic

pub data Outcome (A : Type 0) : Type 0 where
  done : A → Outcome A
  panics : Panic → Outcome A
  hangs : Outcome A

infixl 5 ◌>>=◌
abbrev pub ◌>>=◌ : {A B : Type 0} → Outcome A → (A → Outcome B) → Outcome B
done a >>= f = f a
panics p >>= f = panics p
hangs >>= f = hangs

-- `Read(p)` of an `io.Reader` in state `s` with `len(p) = k`: the bytes that it puts into `p`
-- (`none` for a negative count), the error, and the next state.
abbrev pub Read : Type 0 → Type 0
Read S = S → ℕ → Option Bytes × Option IoError × S

-- `Write(p)` of an `io.Writer`: the count, the error, and the next state.
abbrev pub Write : Type 0 → Type 0
Write W = W → Bytes → ℕ × Option IoError × W

-- One call of `Read` as the documentation of `io.Reader` has it: 0 <= n <= len(p), and the bytes
-- are the next ones of what the source holds.
pub record Gives {S : Type 0} (read : Read S) (rest : S → Bytes) (s : S) (k : ℕ) : Type 0 where
  pub bytes : Bytes
  pub error : Option IoError
  pub next : S
  pub read_eq : read s k ≡ (some bytes, error, next)
  pub fits : length bytes ≤ k
  pub rest_eq : rest s ≡ bytes ++ rest next

pub record IsSource {S : Type 0} (read : Read S) (rest : S → Bytes) : Type 0 where
  pub gives : (s : S) (k : ℕ) → Gives read rest s k

-- One call of `Write` as the documentation of `io.Writer` has it: 0 <= n <= len(p), an error if
-- n < len(p), and the first n bytes are appended to what was written.
pub record Takes {W : Type 0} (write : Write W) (written : W → Bytes) (s : W) (p : Bytes)
    : Type 0 where
  pub count : ℕ
  pub error : Option IoError
  pub next : W
  pub write_eq : write s p ≡ (count, error, next)
  pub fits : count ≤ length p
  pub short : count < length p → error ≢ none
  pub written_eq : written next ≡ written s ++ take count p

pub record IsSink {W : Type 0} (write : Write W) (written : W → Bytes) : Type 0 where
  pub takes : (s : W) (p : Bytes) → Takes write written s p

abbrev pub is_none {ℓ} : {A : Type ℓ} → Option A → Bool
is_none none = true
is_none (some a) = false

abbrev pub is_eof : Option IoError → Bool
is_eof (some eof) = true
is_eof _ = false

abbrev pub is_buffer_full : Option IoError → Bool
is_buffer_full (some buffer_full) = true
is_buffer_full _ = false

pub ne_none {ℓ} : {A : Type ℓ} (o : Option A) → is_none o ≡ false → (a : A) × (o ≡ some a)
ne_none none h = cc
ne_none (some a) h = (a, refl)

pub eq_none {ℓ} : {A : Type ℓ} (o : Option A) → is_none o ≡ true → o ≡ none
eq_none none h = refl
eq_none (some a) h = cc
