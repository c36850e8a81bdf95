-- ===== src/Conn/Send.antt =====
-- What `WriteMessage` puts into the output.
use kratos_transport_rpc.Prelude.{
  ℕ, ◌+◌, ◌%◌, ◌^◌, ◌≤◌, ◌<◌, bit_or, ◌≡◌, refl, ap, sym, ◌∙◌, ◌⊎◌, inl, inr, Option, none, true,
  false, not, [], ◌∷◌, ◌++◌, append-nil, append_assoc, Bytes, length, take-copy_at, take_all,
  length-eq-nil, subst, length-copy_at, ltb, leb, Bool-cases, leb→le, ltb→lt, ltb→le, if◌then◌else◌,
  arith,
}
use kratos_transport_rpc.Io.{IoError, Outcome, done, Write, IsSink, is_none, ◌>>=◌}
use kratos_transport_rpc.Bufio.Writer.{Writer, pending}
use kratos_transport_rpc.Bufio.Writer.Flush.{IsValid, output}
use kratos_transport_rpc.Bufio.Writer.Append.{write_bytes_lem}
use kratos_transport_rpc.Bufio.Writer.Room.{writer_peek_lem}
use kratos_transport_rpc.Conn.{
  fin_bit, be_bytes, put, put_header, then_put, write_header, write_body, write_message,
}
use kratos_transport_rpc.Conn.Bits.{length-be_bytes}

-- The frame of RFC 6455, section 5.2, that carries `msg` unmasked in one piece.
abbrev pub frame_header : ℕ → ℕ → Bytes
frame_header msg_type len =
    if leb len 125
    then bit_or fin_bit (msg_type % 256) ∷ len ∷ []
    else if ltb len 65536
    then bit_or fin_bit (msg_type % 256) ∷ 126 ∷ be_bytes 2 len
    else bit_or fin_bit (msg_type % 256) ∷ 127 ∷ be_bytes 8 len

abbrev pub frame_bytes : ℕ → Bytes → Bytes
frame_bytes msg_type msg = frame_header msg_type (length msg) ++ msg

-- `call` returns; without an error exactly `bytes` have joined the output.
pub record Sends {W : Type 0} (written : W → Bytes) (bytes : Bytes) (b : Writer W)
    (call : Outcome (Option IoError × Writer W)) : Type 0 where
  pub error : Option IoError
  pub after : Writer W
  pub returns : call ≡ done (error, after)
  pub valid : IsValid after
  pub same_size : length after.buf ≡ length b.buf
  pub sent_or_error :
      (error ≡ none) × (output written after ≡ output written b ++ bytes) ⊎ (is_none error ≡ false)

module _ {W : Type 0} (write : Write W) (written : W → Bytes) (snk : IsSink write written) where
  put_header-Sends :
      (k : ℕ) (bytes : Bytes) (b : Writer W)
      → IsValid b
      → k ≤ length b.buf
      → length bytes ≡ k
      → Sends written bytes b (put_header write k bytes b)
  unfolding put_header
  put_header-Sends k bytes b v h size =
      let p = writer_peek_lem write written snk k b v h in
      let b' = p.before in
      elim p.handed_or_error [
        | inl (eq, room, quiet) ↦
            let full = record b' { n = b'.n + k } in
            record {
              error = none;
              after = put full b'.n bytes;
              returns = rw eq;
              valid = omega (arith, length-copy_at b'.buf b'.n bytes, p.valid, room);
              same_size = length-copy_at b'.buf b'.n bytes ∙ p.same_size;
              sent_or_error = inl (
                refl,
                ap (λ l. written b'.wr ++ l)
                      (take-copy_at b'.buf b'.n (b'.n + k) bytes (omega (arith, room, size))
                        (omega (arith, size)))
                    ∙ sym (append_assoc (written b'.wr) (pending b') bytes)
                    ∙ ap (λ l. l ++ bytes) p.same_output,
              );
            }
        | inr (eq, failed, kept) ↦ record {
          error = p.error;
          after = b';
          returns = rw (eq, failed);
          valid = p.valid;
          same_size = p.same_size;
          sent_or_error = inr failed;
        }
      ]

  -- One call after another, which is left out after an error.
  Sends-then :
      {x y : Bytes} {b : Writer W} {m : Outcome (Option IoError × Writer W)}
      (f : Option IoError × Writer W → Outcome (Option IoError × Writer W))
      → Sends written x b m
      → ((e : Option IoError) (b1 : Writer W) → is_none e ≡ false → f (e, b1) ≡ done (e, b1))
      → ((b1 : Writer W)
          → IsValid b1
          → length b1.buf ≡ length b.buf
          → Sends written y b1 (f (none, b1)))
      → Sends written (x ++ y) b (m >>= f)
  Sends-then {x} {y} {b} {m} f s stop go = elim s.sent_or_error [
    | inr failed ↦ record {
      error = s.error;
      after = s.after;
      returns = ap (λ o. o >>= f) s.returns ∙ stop s.error s.after failed;
      valid = s.valid;
      same_size = s.same_size;
      sent_or_error = inr failed;
    }
    | inl (fine, out) ↦
        let t = go s.after s.valid s.same_size in
        record {
          error = t.error;
          after = t.after;
          returns = ap (λ o. o >>= f) s.returns ∙ ap (λ e. f (e, s.after)) fine ∙ t.returns;
          valid = t.valid;
          same_size = t.same_size ∙ s.same_size;
          sent_or_error = elim t.sent_or_error [
            | inl (fine2, out2) ↦
                inl (fine2, out2 ∙ ap (λ l. l ++ y) out ∙ append_assoc (output written b) x y)
            | inr failed ↦ inr failed
          ];
        }
  ]

  long-Sends :
      (k : ℕ) (x y : Bytes) (b : Writer W)
      → IsValid b
      → 8 ≤ length b.buf
      → k ≤ 8
      → length x ≡ 2
      → length y ≡ k
      → Sends written (x ++ y) b (put_header write 2 x b >>= then_put write k y)
  long-Sends k x y b v h k_le sx sy =
      Sends-then (then_put write k y) (put_header-Sends 2 x b v (omega arith) sx)
        (λ e b1 failed. rw failed) (λ b1 v1 size. put_header-Sends k y b1 v1 (omega arith) sy)

  header_small :
      (t n : ℕ) (b : Writer W)
      → leb n 125 ≡ true
      → write_header write t n b ≡ put_header write 2 (bit_or fin_bit (t % 256) ∷ n % 256 ∷ []) b
  unfolding write_header
  header_small t n b h = rw h

  header_medium :
      (t n : ℕ) (b : Writer W)
      → leb n 125 ≡ false
      → ltb n 65536 ≡ true
      → write_header write t n b ≡ (
          put_header write 2 (bit_or fin_bit (t % 256) ∷ 126 ∷ []) b
          >>= then_put write 2 (be_bytes 2 (n % 2 ^ 16)))
  unfolding write_header
  header_medium t n b h k = rw (h, k)

  header_large :
      (t n : ℕ) (b : Writer W)
      → leb n 125 ≡ false
      → ltb n 65536 ≡ false
      → write_header write t n b ≡ (
          put_header write 2 (bit_or fin_bit (t % 256) ∷ 127 ∷ []) b
          >>= then_put write 8 (be_bytes 8 (n % 2 ^ 64)))
  unfolding write_header
  header_large t n b h k = rw (h, k)

  Sends-bytes :
      {x y : Bytes} {b : Writer W} {call : Outcome (Option IoError × Writer W)}
      → x ≡ y
      → Sends written x b call
      → Sends written y b call
  Sends-bytes {b = b} {call} e s = subst (λ l. Sends written l b call) e s

  write_header-Sends :
      (t n : ℕ) (b : Writer W)
      → IsValid b
      → 8 ≤ length b.buf
      → n < 2 ^ 64
      → Sends written (frame_header t n) b (write_header write t n b)
  write_header-Sends t n b v h small = elim (Bool-cases (leb n 125)) [
    | inl s ↦
        let e : n % 256 ≡ n = omega (arith, leb→le n 125 s) in
        rw (header_small t n b s, s)
          (Sends-bytes (ap (λ m. bit_or fin_bit (t % 256) ∷ m ∷ []) e)
            (put_header-Sends 2 (bit_or fin_bit (t % 256) ∷ n % 256 ∷ []) b v (omega arith) refl))
    | inr s ↦ elim (Bool-cases (ltb n 65536)) [
      | inl m ↦
          let e : n % 2 ^ 16 ≡ n = omega (arith, ltb→lt n 65536 m) in
          rw (header_medium t n b s m, s, m)
            (Sends-bytes (ap (λ j. bit_or fin_bit (t % 256) ∷ 126 ∷ be_bytes 2 j) e) (
              long-Sends 2 (bit_or fin_bit (t % 256) ∷ 126 ∷ []) (be_bytes 2 (n % 2 ^ 16)) b v h
                (omega arith) refl (length-be_bytes 2 (n % 2 ^ 16))))
      | inr m ↦
          let e : n % 2 ^ 64 ≡ n = omega arith in
          rw (header_large t n b s m, s, m)
            (Sends-bytes (ap (λ j. bit_or fin_bit (t % 256) ∷ 127 ∷ be_bytes 8 j) e) (
              long-Sends 8 (bit_or fin_bit (t % 256) ∷ 127 ∷ []) (be_bytes 8 (n % 2 ^ 64)) b v h
                (omega arith) refl (length-be_bytes 8 (n % 2 ^ 64))))
    ]
  ]

  write_body-Sends :
      (msg : Bytes) (b : Writer W) → IsValid b → Sends written msg b (write_body write msg b)
  unfolding write_body
  write_body-Sends msg b v = elim (Bool-cases (ltb 0 (length msg))) [
    | inl some_bytes ↦
        let w = write_bytes_lem write written snk msg b v in
        rw (some_bytes, w.returns)
          (record {
            error = w.error;
            after = w.after;
            returns = refl;
            valid = w.valid;
            same_size = w.same_size;
            sent_or_error = elim w.all_or_error [
              | inl (fine, all) ↦ inl (
                fine,
                w.joined
                    ∙ ap (λ l. output written b ++ l) (take_all w.count msg (omega (arith, all))),
              )
              | inr failed ↦ inr failed
            ];
          })
    | inr empty ↦ rw empty (record {
      error = none;
      after = b;
      returns = refl;
      valid = v;
      same_size = refl;
      sent_or_error = inl (
        refl,
        sym (append-nil _)
            ∙ ap (λ l. output written b ++ l)
                (sym (length-eq-nil msg (omega (arith, ltb→le 0 (length msg) empty)))),
      );
    })
  ]

  -- On a valid writer with room for 8 bytes `WriteMessage` returns, for every op code and every
  -- message shorter than 2^64: either with an error, or the frame that carries the message has
  -- joined the output and nothing else.
  pub write_message_lem :
      (t : ℕ) (msg : Bytes) (b : Writer W)
      → IsValid b
      → 8 ≤ length b.buf
      → length msg < 2 ^ 64
      → Sends written (frame_bytes t msg) b (write_message write t msg b)
  unfolding write_message
  write_message_lem t msg b v h small =
      Sends-then (λ (e, b'). if not (is_none e) then done (e, b') else write_body write msg b')
        (write_header-Sends t (length msg) b v h small) (λ e b1 failed. rw failed)
        (λ b1 v1 size. write_body-Sends msg b1 v1)
