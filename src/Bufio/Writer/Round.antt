-- ===== src/Bufio/Writer/Round.antt =====
-- A round of the loops of `Write` and `WriteString`, and how rounds add up.
use kratos_transport_rpc.Prelude.{
  ℕ, ◌+◌, ◌≤◌, min, ◌≡◌, refl, ap, ◌∙◌, sym, ◌⊎◌, inl, inr, Option, none, ◌++◌, append-nil,
  append_assoc, Bytes, length, take, drop, length-drop, length-copy_at, take-copy_at_le,
  take-take-drop, ltb, ltb→lt, ltb→le, Bool-cases, true, false, arith,
}
use kratos_transport_rpc.Io.{IoError, Outcome, done, Write, Takes, is_none, eq_none}
use kratos_transport_rpc.Bufio.Writer.{Writer, pending, available, append_part}
use kratos_transport_rpc.Bufio.Writer.Flush.{IsValid, output}

-- `call` writes the first bytes of `p`: all of them, or fewer with an error. `seen` were counted
-- before.
pub record Writes {W : Type 0} (written : W → Bytes) (seen : ℕ) (p : Bytes) (b : Writer W)
    (call : Outcome (ℕ × Option IoError × Writer W)) : Type 0 where
  pub count : ℕ
  pub error : Option IoError
  pub after : Writer W
  pub returns : call ≡ done (seen + count, error, after)
  pub valid : IsValid after
  pub same_size : length after.buf ≡ length b.buf
  pub fits : count ≤ length p
  pub joined : output written after ≡ output written b ++ take count p
  pub kept : is_none after.err ≡ is_none error
  pub all_or_error : (error ≡ none) × (count ≡ length p) ⊎ (is_none error ≡ false)

-- One round of the loop takes `count` bytes of `p`.
pub record Round {W : Type 0} (written : W → Bytes) (p : Bytes) (b : Writer W) (out : ℕ × Writer W)
    : Type 0 where
  pub valid : IsValid out.1
  pub same_size : length out.1.buf ≡ length b.buf
  pub fits : out.0 ≤ length p
  pub joined : output written out.1 ≡ output written b ++ take out.0 p

pub Takes-all :
    {W : Type 0} {write : Write W} {written : W → Bytes} {s : W} {p : Bytes}
    (t : Takes write written s p)
    → is_none t.error ≡ true
    → length p ≤ t.count
Takes-all {p = p} t fine = elim (Bool-cases (ltb t.count (length p))) [
  | inl less ↦ absurd (t.short (ltb→lt _ _ less) (eq_none t.error fine))
  | inr all ↦ ltb→le _ _ all
]

module _ {W : Type 0} (written : W → Bytes) where
  pub append_part-Round :
      (p : Bytes) (b : Writer W) → IsValid b → Round written p b (append_part p b)
  append_part-Round p b v =
      let k = min (available b) (length p) in
      record {
        valid = omega (arith, length-copy_at b.buf b.n p);
        same_size = length-copy_at b.buf b.n p;
        fits = omega arith;
        joined =
            ap (λ l. written b.wr ++ l)
              (take-copy_at_le b.buf b.n k (b.n + k) p refl (omega arith) (omega arith))
            ∙ sym (append_assoc (written b.wr) (pending b) (take k p));
      }

  -- What one round and the later ones take is a longer part of `p`.
  pub Writes-Round :
      {seen k : ℕ} {p : Bytes} {b b' : Writer W} {call : Outcome (ℕ × Option IoError × Writer W)}
      → Round written p b (k, b')
      → Writes written (seen + k) (drop k p) b' call
      → Writes written seen p b call
  Writes-Round {seen} {k} {p} {b} {b'} r w = record {
    count = k + w.count;
    error = w.error;
    after = w.after;
    returns = w.returns ∙ ap (λ (j : ℕ). done (j, w.error, w.after)) (omega arith);
    valid = w.valid;
    same_size = w.same_size ∙ r.same_size;
    fits = omega (arith, r.fits, w.fits, length-drop k p);
    joined =
        w.joined
        ∙ ap (λ l. l ++ take w.count (drop k p)) r.joined
        ∙ append_assoc (output written b) (take k p) (take w.count (drop k p))
        ∙ ap (λ l. output written b ++ l) (take-take-drop k w.count (k + w.count) p refl);
    kept = w.kept;
    all_or_error = elim w.all_or_error [
      | inl (fine, size) ↦ inl (fine, omega (arith, size, r.fits, length-drop k p))
      | inr failed ↦ inr failed
    ];
  }

  -- the returns behind the loops
  pub Writes-failed :
      (seen : ℕ) (p : Bytes) (b : Writer W)
      → IsValid b
      → is_none b.err ≡ false
      → Writes written seen p b (done (seen, b.err, b))
  Writes-failed seen p b v failed = record {
    count = 0;
    error = b.err;
    after = b;
    returns = ap (λ (j : ℕ). done (j, b.err, b)) (omega arith);
    valid = v;
    same_size = refl;
    fits = omega arith;
    joined = sym (append-nil _);
    kept = refl;
    all_or_error = inr failed;
  }

  pub Writes-rest :
      (seen : ℕ) (p : Bytes) (b : Writer W)
      → IsValid b
      → is_none b.err ≡ true
      → length p ≤ available b
      → Writes written seen p b (let (k, b') = append_part p b in done (seen + k, none, b'))
  Writes-rest seen p b v quiet room =
      let r = append_part-Round p b v in
      record {
        count = min (available b) (length p);
        error = none;
        after = (append_part p b).1;
        returns = refl;
        valid = r.valid;
        same_size = r.same_size;
        fits = r.fits;
        joined = r.joined;
        kept = quiet;
        all_or_error = inl (refl, omega arith);
      }
