-- ===== src/Conn/Message.antt =====
-- server/mqtt/conn.go: ReadMessage.
use kratos_transport_rpc.Prelude.{
  ℕ, zero, suc, ◌+◌, Bool, ◌&&◌, ◌||◌, not, Option, none, some, [], ◌++◌, Bytes, length, ltb, ◌==◌,
  if◌then◌else◌,
}
use kratos_transport_rpc.Io.{
  IoError, message_close, message_max_read, unknown_message, Outcome, done, hangs, ◌>>=◌, Read,
  Write, is_none,
}
use kratos_transport_rpc.Conn.{
  Conn, Frame, write_message, read_frame, continuation_frame, continuation_frame_max_read,
  text_message, binary_message, close_message, ping_message, pong_message,
}

-- op, payload and err of `ReadMessage`
abbrev pub Message : Type 0 → Type 0 → Type 0
Message S W = Outcome (ℕ × Bytes × Option IoError × Conn S W)

unfoldable pub is_data : ℕ → Bool
is_data op = op == binary_message || op == text_message || op == continuation_frame

module _ {S W : Type 0} where
  -- A data frame; `next` is the rest of the loop, on op, payload, finOp and the connection.
  unfoldable pub on_data :
      (ℕ → Bytes → ℕ → Conn S W → Message S W) → Bytes → ℕ → Frame → Conn S W → Message S W
  on_data next payload fin_op fr c =
      if fr.fin && length payload == 0
      then done (fr.op, fr.payload, none, c)
      else (let payload' = payload ++ fr.payload in
          let fin_op' = (if fr.op == continuation_frame then fin_op else fr.op) in
          if fr.fin then done (fin_op', payload', none, c) else next fr.op payload' fin_op' c)

  -- `if n > continuationFrameMaxRead`, before the next round of the loop
  unfoldable pub guarded :
      ℕ → (ℕ → Bytes → ℕ → Conn S W → Message S W) → ℕ → Bytes → ℕ → Conn S W → Message S W
  guarded n next op payload fin_op c =
      if ltb continuation_frame_max_read n
      then done (op, payload, some message_max_read, c)
      else next op payload fin_op c

module _ {S W : Type 0} (read : Read S) (write : Write W) where
  -- the `switch` on the frame's op code
  unfoldable pub on_frame :
      (ℕ → Bytes → ℕ → Conn S W → Message S W)
      → Bytes
      → ℕ
      → Frame × Option IoError × Conn S W
      → Message S W
  unfolding is_data on_data
  on_frame next payload fin_op (fr, e, c) =
      if not (is_none e)
      then done (fr.op, payload, e, c)
      else if is_data fr.op
      then on_data next payload fin_op fr c
      else if fr.op == ping_message
      then (write_message write pong_message fr.payload c.w >>= λ (e2, w').
          let c' = record c { w = w' } in
          if not (is_none e2) then done (fr.op, payload, e2, c') else next fr.op payload fin_op c')
      else if fr.op == pong_message
      then next fr.op payload fin_op c
      else if fr.op == close_message
      then done (fr.op, payload, some message_close, c)
      else done (fr.op, payload, some unknown_message, c)

  -- the loop of `ReadMessage`, after n frames
  unfoldable pub read_message_loop : ℕ → ℕ → Bytes → ℕ → Conn S W → Message S W
  unfolding on_frame guarded
  read_message_loop zero n payload fin_op c = hangs
  read_message_loop (suc f) n payload fin_op c =
      read_frame read c >>= on_frame (guarded n (λ op. read_message_loop f (n + 1))) payload fin_op

  unfoldable pub read_message : Conn S W → Message S W
  unfolding read_message_loop
  read_message c = read_message_loop (continuation_frame_max_read + 2) 0 [] 0 c
