-- ===== src/Conn/Answer.antt =====
-- `ReadMessage` returns on every input.
use kratos_transport_rpc.Prelude.{
  ℕ, zero, suc, ◌+◌, ◌^◌, ◌≤◌, ◌<◌, ◌≡◌, refl, ◌&&◌, inl, inr, Option, none, some, [], ◌++◌, Bytes,
  length, ltb, ◌==◌, ltb→le, Bool-cases, if◌then◌else◌, arith,
}
use kratos_transport_rpc.Io.{
  IoError, message_max_read, message_close, unknown_message, done, Read, Write, IsSource, IsSink,
  is_none,
}
use kratos_transport_rpc.Conn.{Conn, Frame, continuation_frame, pong_message}
use kratos_transport_rpc.Conn.Message.{
  Message, is_data, on_data, on_frame, guarded, read_message_loop, read_message,
}
use kratos_transport_rpc.Conn.Send.{write_message_lem}
use kratos_transport_rpc.Conn.Total.{IsConn, read_frame-total}

-- `call` returns a message or an error, and a valid connection.
pub record Answers {S W : Type 0} (size : ℕ) (call : Message S W) : Type 0 where
  pub op : ℕ
  pub payload : Bytes
  pub error : Option IoError
  pub after : Conn S W
  pub returns : call ≡ done (op, payload, error, after)
  pub valid : IsConn size after

module _ {S W : Type 0} (read : Read S) (write : Write W) (rest : S → Bytes)
    (src : IsSource read rest) (written : W → Bytes) (snk : IsSink write written) (size : ℕ)
    (small : size < 2 ^ 64) where
  answer :
      (op : ℕ) (p : Bytes) (e : Option IoError) (c : Conn S W)
      → IsConn size c
      → Answers size (done (op, p, e, c))
  answer op p e c h = record {
    op = op;
    payload = p;
    error = e;
    after = c;
    returns = refl;
    valid = h;
  }

  abbrev Next : Type 0
  Next = ℕ → Bytes → ℕ → Conn S W → Message S W

  module _ (next : Next)
      (go : (op : ℕ) (p : Bytes) (fin_op : ℕ) (c : Conn S W)
        → IsConn size c
        → Answers size (next op p fin_op c)) where
    on_data-Answers :
        (payload : Bytes) (fin_op : ℕ) (fr : Frame) (c : Conn S W)
        → IsConn size c
        → Answers size (on_data next payload fin_op fr c)
    unfolding on_data
    on_data-Answers payload fin_op fr c h = elim (Bool-cases (fr.fin && length payload == 0)) [
      | inl whole ↦ rw whole (answer fr.op fr.payload none c h)
      | inr part ↦ elim (Bool-cases fr.fin) [
        | inl last ↦ rw (part, last) (answer _ (payload ++ fr.payload) none c h)
        | inr more ↦
            rw (part, more)
              (go fr.op (payload ++ fr.payload)
                (if fr.op == continuation_frame then fin_op else fr.op) c h)
      ]
    ]

    on_frame-Answers :
        (payload : Bytes) (fin_op : ℕ) (fr : Frame) (e : Option IoError) (c : Conn S W)
        → IsConn size c
        → length fr.payload ≤ size
        → Answers size (on_frame read write next payload fin_op (fr, e, c))
    unfolding on_frame
    on_frame-Answers payload fin_op fr e c h fits = elim (Bool-cases (is_none e)) [
      | inr failed ↦ rw failed (answer fr.op payload e c h)
      | inl fine ↦ elim (Bool-cases (is_data fr.op)) [
        | inl data_frame ↦ rw (fine, data_frame) (on_data-Answers payload fin_op fr c h)
        | inr control ↦ elim (Bool-cases (fr.op == 9)) [
          | inl ping ↦
              let w =
                write_message_lem write written snk pong_message fr.payload c.w h.writer
                  h.write_size (omega arith) in
              let c1 : Conn S W = record c { w = w.after } in
              let h1 : IsConn size c1 = record {
                reader = h.reader;
                read_size = h.read_size;
                writer = w.valid;
                write_size = omega (arith, w.same_size, h.write_size);
              } in
              rw (fine, control, ping, w.returns)
                (elim (Bool-cases (is_none w.error)) [
                  | inr broken ↦ rw broken (answer fr.op payload w.error c1 h1)
                  | inl sent ↦ rw sent (go fr.op payload fin_op c1 h1)
                ])
          | inr p ↦ elim (Bool-cases (fr.op == 10)) [
            | inl pong ↦ rw (fine, control, p, pong) (go fr.op payload fin_op c h)
            | inr q ↦ elim (Bool-cases (fr.op == 8)) [
              | inl close ↦
                  rw (fine, control, p, q, close) (answer fr.op payload (some message_close) c h)
              | inr other ↦
                  rw (fine, control, p, q, other) (answer fr.op payload (some unknown_message) c h)
            ]
          ]
        ]
      ]
    ]

  guarded-Answers :
      (n : ℕ) (next : Next)
      → (n ≤ 100
          → (op : ℕ) (p : Bytes) (fin_op : ℕ) (c : Conn S W) → IsConn size c
          → Answers size (next op p fin_op c))
      → (op : ℕ) (p : Bytes) (fin_op : ℕ) (c : Conn S W) → IsConn size c
      → Answers size (guarded n next op p fin_op c)
  unfolding guarded
  guarded-Answers n next go op p fin_op c h = elim (Bool-cases (ltb 100 n)) [
    | inl many ↦ rw many (answer op p (some message_max_read) c h)
    | inr few ↦ rw few (go (ltb→le 100 n few) op p fin_op c h)
  ]

  loop-Answers :
      (f n : ℕ) (payload : Bytes) (fin_op : ℕ) (c : Conn S W)
      → f + n ≡ 102
      → n ≤ 101
      → IsConn size c
      → Answers size (read_message_loop read write f n payload fin_op c)
  unfolding read_message_loop guarded
  loop-Answers zero n payload fin_op c sum le h = absurd (omega arith)
  loop-Answers (suc f) n payload fin_op c sum le h =
      let t = read_frame-total read rest src size c h in
      rw t.returns (
        on_frame-Answers (guarded n (λ op. read_message_loop read write f (n + 1)))
          (guarded-Answers n (λ op. read_message_loop read write f (n + 1))
            (λ few op p fin_op1 c1 h1.
              loop-Answers f (n + 1) p fin_op1 c1 (omega arith) (omega arith) h1))
          payload fin_op t.frame t.error t.after t.valid t.fits)

  -- `ReadMessage` returns from every valid connection whose reader has a buffer shorter than
  -- 2^64, whatever the bytes that come and whether the peer closes or not: 102 rounds of its loop
  -- are enough, the pongs it writes included. The connection is valid afterwards.
  pub read_message-total : (c : Conn S W) → IsConn size c → Answers size (read_message read write c)
  unfolding read_message
  read_message-total c h = loop-Answers 102 0 [] 0 c refl (omega arith) h
