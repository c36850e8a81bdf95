-- ===== src/Conn/RoundTrip.antt =====
-- What `WriteMessage` sends is what `ReadMessage` returns at the other end.
use kratos_transport_rpc.Prelude.{
  ℕ, ◌^◌, ◌≤◌, ◌<◌, ◌≡◌, ◌≢◌, ap, sym, subst, ◌∙◌, inl, inr, Option, none, true, false, [], ◌++◌,
  append-nil, Bytes, length, take, arith,
}
use kratos_transport_rpc.Io.{IoError, Outcome, done, Read, Write, IsSource, IsSink, is_none}
use kratos_transport_rpc.Bufio.Reader.{Reader}
use kratos_transport_rpc.Bufio.Reader.Reliable.{IsReliable}
use kratos_transport_rpc.Bufio.Writer.{Writer, flush}
use kratos_transport_rpc.Bufio.Writer.Flush
use kratos_transport_rpc.Bufio.Writer.Flush.{output, flush_lem}
use kratos_transport_rpc.Conn.{Conn, read_frame, write_message}
use kratos_transport_rpc.Conn.Message.{is_data, on_data, on_frame, read_message_loop, read_message}
use kratos_transport_rpc.Conn.Send.{Sends, frame_bytes, write_message_lem}
use kratos_transport_rpc.Conn.Receive.{Ready, read_frame_lem}
use kratos_transport_rpc.Conn.Assemble.{IsText, frame}

not_none : (e : Option IoError) → is_none e ≡ false → e ≢ none
not_none e h n = cc

value_or : {A : Type 0} → A → Outcome A → A
value_or d (done a) = a
value_or d _ = d

Sends-output :
    {W : Type 0} (written : W → Bytes) (bytes : Bytes) (b b1 : Writer W)
    (call : Outcome (Option IoError × Writer W))
    → Sends written bytes b call
    → call ≡ done (none, b1)
    → output written b1 ≡ output written b ++ bytes
unfolding value_or
Sends-output written bytes b b1 call s eq =
    let same = ap (value_or (none, b1)) (sym s.returns ∙ eq) in
    elim s.sent_or_error [
      | inl (fine, out) ↦
          subst (λ x. output written x ≡ output written b ++ bytes) (ap (λ x. x.1) same) out
      | inr failed ↦ absurd (not_none s.error failed (ap (λ x. x.0) same))
    ]

Flush-empties :
    {W : Type 0} (written : W → Bytes) (b : Writer W) → b.n ≡ 0 → written b.wr ≡ output written b
Flush-empties written b e =
    sym (append-nil (written b.wr)) ∙ ap (λ k. written b.wr ++ take k b.buf) (sym e)

Flush-output :
    {W : Type 0} (write : Write W) (written : W → Bytes) (snk : IsSink write written)
    (b b1 : Writer W)
    → Flush.IsValid b
    → flush write b ≡ (none, b1)
    → written b1.wr ≡ output written b
Flush-output write written snk b b1 v eq =
    let f = flush_lem write written snk b v in
    elim f.empty_or_error [
      | inl (fine, empty, quiet) ↦
          Flush-empties written b1 (subst (λ x. x.n ≡ 0) (ap (λ x. x.1) eq) empty)
          ∙ subst (λ x. output written x ≡ output written b) (ap (λ x. x.1) eq) f.same_output
      | inr (failed, kept) ↦ absurd (not_none (flush write b).0 failed (ap (λ x. x.0) eq))
    ]

module _ {S W V : Type 0} (read : Read S) (rest : S → Bytes) (src : IsSource read rest)
    (rel : IsReliable read rest) (write : Write W) (written : W → Bytes)
    (snk : IsSink write written) (reply : Write V) (size : ℕ) where
  whole_message :
      (t : ℕ) (p : Bytes) (c c1 : Conn S V)
      → IsText t
      → read_frame read c ≡ done (frame true t p, none, c1)
      → read_message read reply c ≡ done (t, p, none, c1)
  unfolding read_message read_message_loop on_frame on_data is_data
  whole_message t p c c1 (inl e) eq = rw (eq, e)
  whole_message t p c c1 (inr e) eq = rw (eq, e)

  -- A text or binary message that `WriteMessage` and `Flush` have put out without an error, on a
  -- fresh writer with room for 8 bytes, is what `ReadMessage` returns from a connection whose
  -- source gives those bytes: the same op code, the same bytes and no error, with nothing left to
  -- read. The message fits the reader's buffer of 8 bytes or more.
  pub read_message-write_message :
      (t : ℕ) (msg : Bytes) (b b1 b2 : Writer W) (c : Conn S V)
      → IsText t
      → 8 ≤ size
      → length msg ≤ size
      → length msg < 2 ^ 63
      → Flush.IsValid b
      → output written b ≡ []
      → 8 ≤ length b.buf
      → write_message write t msg b ≡ done (none, b1)
      → flush write b1 ≡ (none, b2)
      → Ready rest size (written b2.wr) c.r
      → (r1 : Reader S) × (read_message read reply c ≡ done (t, msg, none, record c { r = r1 }))
        × Ready rest size [] r1
  unfolding value_or
  read_message-write_message t msg b b1 b2 c text room fits short v fresh wroom wrote flushed h =
      let s = write_message_lem write written snk t msg b v wroom (omega arith) in
      let v1 : Flush.IsValid b1 =
        subst Flush.IsValid (ap (λ x. x.1) (ap (value_or (none, b1)) (sym s.returns ∙ wrote)))
          s.valid in
      let out =
        Flush-output write written snk b1 b2 v1 flushed
        ∙ Sends-output written (frame_bytes t msg) b b1 _ s wrote
        ∙ ap (λ l. l ++ frame_bytes t msg) fresh
        ∙ sym (append-nil (frame_bytes t msg)) in
      let small : t < 16 = elim text [ inl e ↦ omega arith | inr e ↦ omega arith ] in
      let (r1, eq, h1) =
        read_frame_lem read rest src rel size t msg [] c small room fits short
          (subst (λ l. Ready rest size l c.r) out h) in
      (r1, whole_message t msg c (record c { r = r1 }) text eq, h1)
