-- ===== src/Conn/Bits.antt =====
-- Facts about the bytes of a frame: the bit tests, the length bytes and the mask.
use kratos_transport_rpc.Prelude.{
  ℕ, zero, suc, ◌+◌, ◌*◌, ◌/◌, ◌%◌, ◌^◌, ◌<◌, bit_and, bit_or, bit_xor, Bool, true, ◌&&◌, ◌≡◌, refl,
  ap, ap₂, [], ◌∷◌, Bytes, length, get_or, ◌==◌, ==_iff, arith,
}
use kratos_transport_rpc.Prelude.Range.{passes, passes_at}
use kratos_transport_rpc.Conn.{
  fin_bit, rsv_bits, op_bit, mask_bit, len_bit, mask_bytes, be_bytes, be_value,
}

first_test : ℕ → Bool
first_test op =
    bit_and (bit_or fin_bit op) op_bit == op
    && bit_and (bit_or fin_bit op) fin_bit == 128
    && bit_and (bit_or fin_bit op) rsv_bits == 0

first_table : passes first_test 0 16 ≡ true
unfolding passes first_test
first_table = refl

-- The first byte of a final frame: its op code, FIN, and no reserved bit.
pub first_byte :
    (op : ℕ)
    → op < 16
    → (bit_and (bit_or fin_bit op) op_bit ≡ op)
      × (bit_and (bit_or fin_bit op) fin_bit ≡ 128)
      × (bit_and (bit_or fin_bit op) rsv_bits ≡ 0)
unfolding first_test
first_byte op h =
    ground (arith, passes_at first_test 16 0 op first_table (omega arith) (omega arith))

second_test : ℕ → Bool
second_test n = bit_and n len_bit == n && bit_and n mask_bit == 0

second_table : passes second_test 0 128 ≡ true
unfolding passes second_test
second_table = refl

-- The second byte of a frame without a mask.
pub second_byte : (n : ℕ) → n < 128 → (bit_and n len_bit ≡ n) × (bit_and n mask_bit ≡ 0)
unfolding second_test
second_byte n h =
    ground (arith, passes_at second_test 128 0 n second_table (omega arith) (omega arith))

xor_test : ℕ → Bool
xor_test n = bit_xor (bit_xor (n % 256) (n / 256)) (n / 256) == n % 256

xor_table : passes xor_test 0 65536 ≡ true
unfolding passes xor_test
xor_table = refl

pub xor_twice : (x k : ℕ) → x < 256 → k < 256 → bit_xor (bit_xor x k) k ≡ x
unfolding xor_test
xor_twice x k h g =
    let e : (k * 256 + x) % 256 ≡ x = omega arith in
    let d : (k * 256 + x) / 256 ≡ k = omega arith in
    let t : bit_xor (bit_xor ((k * 256 + x) % 256) ((k * 256 + x) / 256)) ((k * 256 + x) / 256)
        ≡ (k * 256 + x) % 256 =
      (==_iff _ _).0
        (passes_at xor_test 65536 0 (k * 256 + x) xor_table (omega arith) (omega arith)) in
    rw (e, d) at t

-- Bytes as the program has them.
abbrev pub AllBytes : Bytes → Type 0
AllBytes [] = Unit
AllBytes (x ∷ xs) = (x < 256) × AllBytes xs

get_or-AllBytes : (l : Bytes) (i : ℕ) → AllBytes l → get_or l i 0 < 256
get_or-AllBytes [] i h = omega arith
get_or-AllBytes (x ∷ l) zero h = h.0
get_or-AllBytes (x ∷ l) (suc i) h = get_or-AllBytes l i h.1

-- Masking twice with one key, from the same position, gives the bytes back, whatever the length
-- of the payload; and the position that it returns is that of the next byte.
pub mask_bytes_twice :
    (key b : Bytes) (p : ℕ)
    → AllBytes key
    → AllBytes b
    → (mask_bytes key p (mask_bytes key p b).0).0 ≡ b
unfolding mask_bytes
mask_bytes_twice key [] p hk hb = refl
mask_bytes_twice key (x ∷ b) p hk hb =
    ap₂ ◌∷◌ (xor_twice x (get_or key (bit_and p 3) 0) hb.0 (get_or-AllBytes key (bit_and p 3) hk))
      (mask_bytes_twice key b (p + 1) hk hb.1)

-- Two bytes, the highest first, are read back.
pub be_two : (v : ℕ) → v < 2 ^ 16 → be_value 0 (be_bytes 2 v) ≡ v
unfolding be_value be_bytes
be_two v h = omega arith

-- So are eight.
pub be_eight : (v : ℕ) → v < 2 ^ 64 → be_value 0 (be_bytes 8 v) ≡ v
unfolding be_value be_bytes
be_eight v h = omega arith

pub length-be_bytes : (k v : ℕ) → length (be_bytes k v) ≡ k
unfolding be_bytes
length-be_bytes zero v = refl
length-be_bytes (suc k) v = ap suc (length-be_bytes k v)
