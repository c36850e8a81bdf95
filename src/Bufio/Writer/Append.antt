-- ===== src/Bufio/Writer/Append.antt =====
-- What `Write` and `WriteString` do to the output, and that they return.
use kratos_transport_rpc.Prelude.{
  ℕ, suc, ◌+◌, ◌≤◌, min, ◌≡◌, ◌≢◌, refl, ap, ap₂, ◌∙◌, sym, ◌⊎◌, inl, inr, none, ◌++◌, [],
  append-nil, Bytes, length, take, drop, length-drop, ltb, ltb→le, le→ltb, Bool-cases, true, false,
  ◌==◌, ==_iff, ==_false, arith,
}
use kratos_transport_rpc.Io.{done, Write, Takes, IsSink, is_none}
use kratos_transport_rpc.Bufio.Writer.{
  Writer, pending, available, append_part, flush, write_round, write_loop, write_bytes,
}
use kratos_transport_rpc.Bufio.Writer.Flush.{IsValid, flush_lem}
use kratos_transport_rpc.Bufio.Writer.Round.{
  Writes, Round, Takes-all, append_part-Round, Writes-failed, Writes-rest, Writes-Round,
}

module _ {W : Type 0} (write : Write W) (written : W → Bytes) (snk : IsSink write written) where
  loop-failed :
      (f seen : ℕ) (p : Bytes) (b : Writer W)
      → is_none b.err ≡ false
      → write_loop write (suc f) seen p b ≡ done (seen, b.err, b)
  unfolding write_loop
  loop-failed f seen p b failed = elim (Bool-cases (ltb (available b) (length p))) [
    | inl long ↦ rw (long, failed)
    | inr short ↦ rw (short, failed)
  ]

  loop-rest :
      (f seen : ℕ) (p : Bytes) (b : Writer W)
      → is_none b.err ≡ true
      → length p ≤ available b
      → write_loop write (suc f) seen p b
        ≡ (let (k, b') = append_part p b in done (seen + k, none, b'))
  unfolding write_loop
  loop-rest f seen p b quiet room = rw (le→ltb (available b) (length p) room, quiet)

  loop-round :
      (f seen : ℕ) (p : Bytes) (b : Writer W)
      → is_none b.err ≡ true
      → ltb (available b) (length p) ≡ true
      → write_loop write (suc f) seen p b
        ≡ (let (k, b') = write_round write p b in write_loop write f (seen + k) (drop k p) b')
  unfolding write_loop
  loop-round f seen p b quiet long = rw (long, quiet)

  -- The loop ends at once after an error, or if the rest fits.
  loop_end :
      (f seen : ℕ) (p : Bytes) (b : Writer W)
      → IsValid b
      → (is_none b.err ≡ false) ⊎ (length p ≤ available b)
      → Writes written seen p b (write_loop write (suc f) seen p b)
  loop_end f seen p b v h = elim (Bool-cases (is_none b.err)) [
    | inr failed ↦ rw (loop-failed f seen p b failed) (Writes-failed written seen p b v failed)
    | inl quiet ↦
        let room : length p ≤ available b = elim h [ inl x ↦ cc | inr x ↦ x ] in
        rw (loop-rest f seen p b quiet room) (Writes-rest written seen p b v quiet room)
  ]

  direct-eq :
      (p : Bytes) (b : Writer W)
      → b.n ≡ 0
      → (t : Takes write written b.wr p)
      → write_round write p b ≡ (t.count, record b { err = t.error; wr = t.next })
  unfolding write_round
  direct-eq p b empty t = rw ((==_iff b.n 0).1 empty, t.write_eq)

  copy-eq :
      (p : Bytes) (b : Writer W)
      → b.n ≢ 0
      → write_round write p b ≡ (let (k, b') = append_part p b in (k, (flush write b').1))
  unfolding write_round
  copy-eq p b full = rw (==_false b.n 0 full)

  -- "Large write, empty buffer": all of `p`, or an error.
  direct-Round :
      (p : Bytes) (b : Writer W)
      → IsValid b
      → b.n ≡ 0
      → (t : Takes write written b.wr p)
      → Round written p b (t.count, record b { err = t.error; wr = t.next })
  direct-Round p b v empty t =
      let none_pending : pending b ≡ [] = ap (λ k. take k b.buf) empty in
      record {
        valid = omega (arith, v);
        same_size = refl;
        fits = t.fits;
        joined =
            ap₂ ◌++◌ t.written_eq none_pending
            ∙ append-nil _
            ∙ ap (λ l. l ++ take t.count p)
                (sym (append-nil (written b.wr)) ∙ ap (λ l. written b.wr ++ l) (sym none_pending));
      }

  direct_lem :
      (f seen : ℕ) (p : Bytes) (b : Writer W)
      → IsValid b
      → b.n ≡ 0
      → Writes written seen p b (write_loop write (suc (suc f)) seen p b)
  direct_lem f seen p b v empty = elim (Bool-cases (is_none b.err)) [
    | inr failed ↦ loop_end (suc f) seen p b v (inl failed)
    | inl quiet ↦ elim (Bool-cases (ltb (available b) (length p))) [
      | inr short ↦ loop_end (suc f) seen p b v (inr (ltb→le _ _ short))
      | inl long ↦
          let t = snk.takes b.wr p in
          let b' = record b { err = t.error; wr = t.next } in
          let r = direct-Round p b v empty t in
          let finished : (is_none t.error ≡ false) ⊎ (length (drop t.count p) ≤ available b') =
            elim (Bool-cases (is_none t.error)) [
              | inr failed ↦ inl failed
              | inl fine ↦ inr (omega (arith, Takes-all t fine, length-drop t.count p))
            ] in
          rw (loop-round (suc f) seen p b quiet long) (
            rw (direct-eq p b empty t) (
              Writes-Round written r
                (loop_end f (seen + t.count) (drop t.count p) b' r.valid finished)))
    ]
  ]

  -- Bytes are copied to fill the buffer, which is then flushed.
  pub flushed-Round :
      (p : Bytes) (b : Writer W)
      → IsValid b
      → Round written p b (let (k, b') = append_part p b in (k, (flush write b').1))
  flushed-Round p b v =
      let r = append_part-Round written p b v in
      let fl = flush_lem write written snk (append_part p b).1 r.valid in
      record {
        valid = fl.valid;
        same_size = fl.same_size ∙ r.same_size;
        fits = r.fits;
        joined = fl.same_output ∙ r.joined;
      }

  write_loop_lem :
      (f seen : ℕ) (p : Bytes) (b : Writer W)
      → IsValid b
      → Writes written seen p b (write_loop write (suc (suc (suc f))) seen p b)
  write_loop_lem f seen p b v = elim (Bool-cases (b.n == 0)) [
    | inl empty ↦ direct_lem (suc f) seen p b v ((==_iff b.n 0).0 empty)
    | inr full ↦ elim (Bool-cases (is_none b.err)) [
      | inr failed ↦ loop_end (suc (suc f)) seen p b v (inl failed)
      | inl quiet ↦ elim (Bool-cases (ltb (available b) (length p))) [
        | inr short ↦ loop_end (suc (suc f)) seen p b v (inr (ltb→le _ _ short))
        | inl long ↦
            let k = min (available b) (length p) in
            let filled = (append_part p b).1 in
            let b' = (flush write filled).1 in
            let r = flushed-Round p b v in
            let fl = flush_lem write written snk filled (append_part-Round written p b v).valid in
            let later : Writes written (seen + k) (drop k p) b'
                (write_loop write (suc (suc f)) (seen + k) (drop k p) b') =
              elim fl.empty_or_error [
                | inl (_, empty, _) ↦ direct_lem f (seen + k) (drop k p) b' r.valid empty
                | inr (failed, kept) ↦
                    loop_end (suc f) (seen + k) (drop k p) b' r.valid
                      (inl (ap is_none kept ∙ failed))
              ] in
            rw (loop-round (suc (suc f)) seen p b quiet long)
              (rw (copy-eq p b (λ e. cc ((==_iff b.n 0).1 e))) (Writes-Round written r later))
      ]
    ]
  ]

  -- On a valid writer `Write(p)` returns, after two rounds of its loop at most. Exactly the first
  -- `nn` bytes of p have joined the output, in order and behind what was there; err is nil only
  -- if these are all of p; and an error is kept for the next call.
  pub write_bytes_lem :
      (p : Bytes) (b : Writer W) → IsValid b → Writes written 0 p b (write_bytes write p b)
  unfolding write_bytes
  write_bytes_lem p b v = write_loop_lem 0 0 p b v
