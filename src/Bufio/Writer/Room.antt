-- ===== src/Bufio/Writer/Room.antt =====
-- What the writer's `Peek` hands out, and that it returns.
use kratos_transport_rpc.Prelude.{
  ℕ, suc, ◌+◌, ◌≤◌, ◌≡◌, refl, ap, ◌∙◌, ◌⊎◌, inl, inr, Option, none, Bytes, length, ltb, ltb→lt,
  ltb→le, le→ltb, Bool-cases, true, false, not, arith, if◌then◌else◌,
}
use kratos_transport_rpc.Prelude.Int.{pos}
use kratos_transport_rpc.Io.{IoError, done, Write, IsSink, is_none}
use kratos_transport_rpc.Bufio.Writer.{Writer, available, flush, make_room, peek}
use kratos_transport_rpc.Bufio.Writer.Flush.{IsValid, output, flush_lem}

-- `Peek(k)` hands out the k bytes behind the pending ones, or returns an error. What was in the
-- output before is there in the same order: `before` is the writer at the time when the bytes are
-- handed out.
pub record Peeks {W : Type 0} (write : Write W) (written : W → Bytes) (k : ℕ) (b : Writer W)
    : Type 0 where
  pub start : ℕ
  pub error : Option IoError
  pub before : Writer W
  pub valid : IsValid before
  pub same_size : length before.buf ≡ length b.buf
  pub same_output : output written before ≡ output written b
  pub handed_or_error :
      (peek write (pos k) b ≡ done (before.n, none, record before { n = before.n + k }))
        × (before.n + k ≤ length before.buf)
        × (is_none before.err ≡ true)
      ⊎ (peek write (pos k) b ≡ done (0, error, before))
        × (is_none error ≡ false)
        × (before.err ≡ error)

module _ {W : Type 0} (write : Write W) (written : W → Bytes) (snk : IsSink write written)
    (k : ℕ) where
  room-stop :
      (f : ℕ) (b : Writer W)
      → (is_none b.err ≡ false) ⊎ (k ≤ available b)
      → make_room write (suc f) k b ≡ done b
  unfolding make_room
  room-stop f b h = elim (Bool-cases (ltb (available b) k)) [
    | inr room ↦ rw room
    | inl short ↦ elim h [
      | inl failed ↦ rw (short, failed)
      | inr room ↦ absurd (omega (arith, ltb→lt (available b) k short))
    ]
  ]

  room-round :
      (f : ℕ) (b : Writer W)
      → is_none b.err ≡ true
      → ltb (available b) k ≡ true
      → make_room write (suc f) k b ≡ make_room write f k (flush write b).1
  unfolding make_room
  room-round f b quiet short = rw (short, quiet)

  peek-step :
      (b b' : Writer W)
      → k ≤ length b.buf
      → make_room write 2 k b ≡ done b'
      → peek write (pos k) b ≡ (
          if not (is_none b'.err)
          then done (0, b'.err, b')
          else done (b'.n, none, record b' { n = b'.n + k }))
  unfolding peek
  peek-step b b' h eq = rw (le→ltb (length b.buf) k h, eq)

  Peeks-of_room :
      (b b' : Writer W)
      → IsValid b'
      → length b'.buf ≡ length b.buf
      → output written b' ≡ output written b
      → k ≤ length b.buf
      → (is_none b'.err ≡ false) ⊎ (k ≤ available b')
      → make_room write 2 k b ≡ done b'
      → Peeks write written k b
  Peeks-of_room b b' v size same h room eq = record {
    start = b'.n;
    error = b'.err;
    before = b';
    valid = v;
    same_size = size;
    same_output = same;
    handed_or_error = elim (Bool-cases (is_none b'.err)) [
      | inl quiet ↦ inl (
        rw quiet at (peek-step b b' h eq),
        elim room [ inl x ↦ cc | inr r ↦ omega (arith, v) ],
        quiet,
      )
      | inr failed ↦ inr (rw failed at (peek-step b b' h eq), failed, refl)
    ];
  }

  -- On a valid writer whose buffer has room for k bytes `Peek(k)` returns, after one flush at
  -- most: k bytes of the buffer behind the pending ones, or an error. The output is as before.
  pub writer_peek_lem : (b : Writer W) → IsValid b → k ≤ length b.buf → Peeks write written k b
  writer_peek_lem b v h = elim (Bool-cases (is_none b.err)) [
    | inr failed ↦ Peeks-of_room b b v refl refl h (inl failed) (room-stop 1 b (inl failed))
    | inl quiet ↦ elim (Bool-cases (ltb (available b) k)) [
      | inr room ↦
          let r = ltb→le (available b) k room in
          Peeks-of_room b b v refl refl h (inr r) (room-stop 1 b (inr r))
      | inl short ↦
          let fl = flush_lem write written snk b v in
          let b' = (flush write b).1 in
          let ready : (is_none b'.err ≡ false) ⊎ (k ≤ available b') = elim fl.empty_or_error [
            | inl (_, empty, _) ↦ inr (omega (arith, empty, fl.same_size))
            | inr (failed, kept) ↦ inl (ap is_none kept ∙ failed)
          ] in
          Peeks-of_room b b' fl.valid fl.same_size fl.same_output h ready
            (room-round 1 b quiet short ∙ room-stop 0 b' ready)
    ]
  ]
