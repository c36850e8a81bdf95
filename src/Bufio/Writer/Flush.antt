-- ===== src/Bufio/Writer/Flush.antt =====
-- The invariant of a Writer, the output that it stands for, and `flush`.
use kratos_transport_rpc.Prelude.{
  ℕ, zero, suc, ◌-◌, ◌≤◌, ◌<◌, ◌≡◌, refl, ap, ap₂, ◌∙◌, sym, ◌⊎◌, inl, inr, Option, none, ◌++◌,
  append-nil, append_assoc, Bytes, length, take, drop, slice, copy, length-take, length-copy,
  length-slice, take-copy, take-take, take-take-drop, take_all, ltb, Bool-cases, true, false, ◌&&◌,
  ◌==◌, ==_iff, arith, if◌then◌else◌,
}
use kratos_transport_rpc.Io.{IoError, Write, Takes, IsSink, is_none}
use kratos_transport_rpc.Bufio.Writer.{Writer, pending, with_short, after_write, flush}

pub record IsValid {W : Type 0} (b : Writer W) : Type 0 where
  pub n_le : b.n ≤ length b.buf
  pub has_room : 0 < length b.buf

-- All the bytes that have gone through `b`: those that the client's writer has, and the pending
-- ones.
abbrev pub output : {W : Type 0} → (W → Bytes) → Writer W → Bytes
output written b = written b.wr ++ pending b

pub length-pending : {W : Type 0} (b : Writer W) → IsValid b → length (pending b) ≡ b.n
length-pending b v = omega (arith, length-take b.n b.buf)

split_pending : (l : Bytes) (k n : ℕ) → k ≤ n → take k (take n l) ++ slice l k n ≡ take n l
split_pending l k n h =
    ap (λ m. m ++ slice l k n) (take-take k n l h) ∙ take-take-drop k (n - k) n l (omega arith)

-- `flush` returns an error or leaves nothing pending, and the output is as before.
pub record Flushes {W : Type 0} (written : W → Bytes) (b : Writer W)
    (out : Option IoError × Writer W) : Type 0 where
  pub valid : IsValid out.1
  pub same_size : length out.1.buf ≡ length b.buf
  pub same_output : output written out.1 ≡ output written b
  pub empty_or_error :
      (out.0 ≡ none) × (out.1.n ≡ 0) × (is_none out.1.err ≡ true)
      ⊎ (is_none out.0 ≡ false) × (out.1.err ≡ out.0)

unmoved :
    (l : Bytes) (k n : ℕ) → k ≤ n → (ltb 0 k && ltb k n) ≡ false → take (n - k) l ≡ slice l k n
unmoved l zero n h e = refl
unmoved l (suc k) n h e =
    let z : n - suc k ≡ 0 = ground arith in
    ap (λ j. take j l) z ∙ sym (ap (λ j. take j (drop (suc k) l)) z)

module _ {W : Type 0} where
  -- the array of pending bytes after a short write
  slid : (b : Writer W) (k : ℕ) → Bytes
  slid b k = if ltb 0 k && ltb k b.n then copy b.buf (slice b.buf k b.n) else b.buf

  length-slid : (b : Writer W) (k : ℕ) → length (slid b k) ≡ length b.buf
  unfolding slid
  length-slid b k = elim (Bool-cases (ltb 0 k && ltb k b.n)) [
    | inl moves ↦ rw moves (length-copy b.buf (slice b.buf k b.n))
    | inr stays ↦ rw stays
  ]

  take-slid :
      (b : Writer W) (k : ℕ) → IsValid b → k ≤ b.n → take (b.n - k) (slid b k) ≡ slice b.buf k b.n
  unfolding slid
  take-slid b k v h = elim (Bool-cases (ltb 0 k && ltb k b.n)) [
    | inl moves ↦
        let size : length (slice b.buf k b.n) ≡ b.n - k = length-slice b.buf k b.n v.n_le in
        rw moves (
          ap (λ j. take j (copy b.buf (slice b.buf k b.n))) (sym size)
          ∙ take-copy b.buf (slice b.buf k b.n) (omega (arith, size)))
    | inr stays ↦ rw stays (unmoved b.buf k b.n h stays)
  ]

module _ {W : Type 0} (write : Write W) (written : W → Bytes) (snk : IsSink write written) where
  quiet-after :
      (b : Writer W) (k : ℕ) (e : Option IoError) (s : W)
      → is_none (with_short k b.n e) ≡ true
      → after_write b (k, e, s) ≡ (none, record b { n = 0; wr = s })
  unfolding after_write
  quiet-after b k e s h = rw h

  failed-after :
      (b : Writer W) (k : ℕ) (e : Option IoError) (s : W)
      → is_none (with_short k b.n e) ≡ false
      → after_write b (k, e, s) ≡ (
        with_short k b.n e,
        record { err = with_short k b.n e; buf = slid b k; n = b.n - k; wr = s },
      )
  unfolding after_write slid
  failed-after b k e s h = rw h

  with_short-none : (k n : ℕ) (e : Option IoError) → is_none (with_short k n e) ≡ true → n ≤ k
  with_short-none k n e h = ground arith

  after_write-Flushes :
      (b : Writer W)
      → IsValid b
      → is_none b.err ≡ true
      → (t : Takes write written b.wr (pending b))
      → Flushes written b (after_write b (t.count, t.error, t.next))
  after_write-Flushes b v quiet t =
      let le : t.count ≤ b.n = omega (arith, t.fits, length-pending b v) in
      elim (Bool-cases (is_none (with_short t.count b.n t.error))) [
        | inl done_all ↦ rw (quiet-after b t.count t.error t.next done_all) (record {
          valid = omega arith;
          same_size = refl;
          same_output =
              append-nil _
              ∙ t.written_eq
              ∙ ap (λ l. written b.wr ++ l)
                  (take_all t.count (pending b) (
                    omega
                      (arith, length-pending b v, with_short-none t.count b.n t.error done_all)));
          empty_or_error = inl (refl, refl, quiet);
        })
        | inr failed ↦ rw (failed-after b t.count t.error t.next failed) (record {
          valid = omega (arith, length-slid b t.count);
          same_size = length-slid b t.count;
          same_output =
              ap₂ ◌++◌ t.written_eq (take-slid b t.count v le)
              ∙ append_assoc (written b.wr) (take t.count (pending b)) (slice b.buf t.count b.n)
              ∙ ap (λ l. written b.wr ++ l) (split_pending b.buf t.count b.n le);
          empty_or_error = inr (failed, refl);
        })
      ]

  -- `flush` on a valid writer keeps the output, in order and complete: what it does not hand to
  -- the client's writer stays pending. It returns an error, which it also keeps, or it leaves
  -- nothing pending.
  pub flush_lem : (b : Writer W) → IsValid b → Flushes written b (flush write b)
  unfolding flush
  flush_lem b v = elim (Bool-cases (is_none b.err)) [
    | inr failed ↦ rw failed (record {
      valid = v;
      same_size = refl;
      same_output = refl;
      empty_or_error = inr (failed, refl);
    })
    | inl quiet ↦ elim (Bool-cases (b.n == 0)) [
      | inl empty ↦
          rw (quiet, empty)
            (record {
              valid = v;
              same_size = refl;
              same_output = refl;
              empty_or_error = inl (refl, (==_iff b.n 0).0 empty, quiet);
            })
      | inr some_bytes ↦
          let t = snk.takes b.wr (pending b) in
          rw (quiet, some_bytes, t.write_eq) (after_write-Flushes b v quiet t)
    ]
  ]
