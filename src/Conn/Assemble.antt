-- ===== src/Conn/Assemble.antt =====
-- `ReadMessage` puts the fragments of a message together.
use kratos_transport_rpc.Prelude.{
  joined, ℕ, zero, suc, ◌+◌, ◌≤◌, ◌<◌, ◌≡◌, refl, ap, sym, subst, ◌∙◌, ◌⊎◌, inl, inr, Option, none,
  some, Bool, true, false, List, [], ◌∷◌, ◌++◌, append-nil, append_assoc, Bytes, length,
  length-append, ◌==◌, ==_false, lt→ltb, le→ltb, if◌then◌else◌, arith,
}
use kratos_transport_rpc.Io.{message_max_read, done, Read, Write}
use kratos_transport_rpc.Conn.{
  Conn, Frame, continuation_frame, text_message, binary_message, read_frame,
}
use kratos_transport_rpc.Conn.Message.{
  is_data, on_data, on_frame, guarded, read_message_loop, read_message,
}

abbrev pub IsText : ℕ → Type 0
IsText t = (t ≡ text_message) ⊎ (t ≡ binary_message)

abbrev pub frame : Bool → ℕ → Bytes → Frame
frame fin op p = record { fin = fin; op = op; payload = p }

module _ {S W : Type 0} (read : Read S) where
  -- `readFrame`, called once for each of `frames`, returns them without an error.
  pub data Reads : Conn S W → List Frame → Conn S W → Type 0 where
    stop : {c : Conn S W} → Reads c [] c
    one :
        {fr : Frame} {frs : List Frame} {c c1 c2 : Conn S W}
        → read_frame read c ≡ done (fr, none, c1)
        → Reads c1 frs c2
        → Reads c (fr ∷ frs) c2

-- The continuation frames of a message; the last of them is final when a payload is given for it.
unfoldable pub continued : List Bytes → Option Bytes → List Frame
continued [] none = []
continued [] (some last) = frame true continuation_frame last ∷ []
continued (p ∷ ps) last = frame false continuation_frame p ∷ continued ps last

module _ {S W : Type 0} (read : Read S) (write : Write W) where
  loop_more :
      (f n : ℕ) (t : ℕ) (p payload : Bytes) (fin_op : ℕ) (c c1 : Conn S W)
      → is_data t ≡ true
      → n ≤ 100
      → read_frame read c ≡ done (frame false t p, none, c1)
      → read_message_loop read write (suc f) n payload fin_op c
        ≡ read_message_loop read write f
            (n + 1)
            (payload ++ p)
            (if t == continuation_frame then fin_op else t)
            c1
  unfolding read_message_loop guarded on_frame on_data
  loop_more f n t p payload fin_op c c1 d small eq = rw (eq, d, le→ltb 100 n small)

  loop_last :
      (f n : ℕ) (p payload : Bytes) (fin_op : ℕ) (c c1 : Conn S W)
      → 0 < length payload
      → read_frame read c ≡ done (frame true continuation_frame p, none, c1)
      → read_message_loop read write (suc f) n payload fin_op c
        ≡ done (fin_op, payload ++ p, none, c1)
  unfolding read_message_loop guarded on_frame on_data is_data
  loop_last f n p payload fin_op c c1 some_bytes eq =
      rw (eq, ==_false (length payload) 0 (omega arith))

  loop_too_many :
      (f n : ℕ) (t : ℕ) (p payload : Bytes) (fin_op : ℕ) (c c1 : Conn S W)
      → is_data t ≡ true
      → 100 < n
      → read_frame read c ≡ done (frame false t p, none, c1)
      → read_message_loop read write (suc f) n payload fin_op c
        ≡ done (t, payload ++ p, some message_max_read, c1)
  unfolding read_message_loop guarded on_frame on_data
  loop_too_many f n t p payload fin_op c c1 d large eq = rw (eq, d, lt→ltb 100 n large)

  loop_joined :
      (ps : List Bytes) (last payload : Bytes) (fin_op f n : ℕ) (c c1 : Conn S W)
      → 0 < length payload
      → n + length ps ≤ 101
      → length ps < f
      → Reads read c (continued ps (some last)) c1
      → read_message_loop read write f n payload fin_op c
        ≡ done (fin_op, payload ++ (joined ps ++ last), none, c1)
  unfolding continued is_data
  loop_joined ps last payload fin_op zero n c c1 h k l r = absurd (omega arith)
  loop_joined [] last payload fin_op (suc f) n c c1 h k l (one eq stop) =
      loop_last f n last payload fin_op c c1 h eq
  loop_joined (p ∷ ps) last payload fin_op (suc f) n c c2 h k l (one {c1 = c1} eq r) =
      loop_more f n 0 p payload fin_op c c1 refl (omega arith) eq
      ∙ loop_joined ps last (payload ++ p) fin_op f (n + 1) c1 c2
          (omega (arith, length-append {0} payload p)) (omega arith) (omega arith) r
      ∙ ap (λ l. done (fin_op, l, none, c2))
          (append_assoc payload p (joined ps ++ last)
            ∙ ap (λ l. payload ++ l) (sym (append_assoc p (joined ps) last)))

  -- `ReadMessage` of a text or binary message that comes in fragments, the first of which has
  -- bytes, with at most 100 others before the final one: its op code and the payloads
  -- of all its frames in order, without an error, and no frame after the final one is read.
  pub read_message-joined :
      (t : ℕ) (first last : Bytes) (ps : List Bytes) (c c1 : Conn S W)
      → IsText t
      → 0 < length first
      → length ps ≤ 100
      → Reads read c (frame false t first ∷ continued ps (some last)) c1
      → read_message read write c ≡ done (t, first ++ (joined ps ++ last), none, c1)
  unfolding read_message is_data
  read_message-joined t first last ps c c2 (inl e) some_bytes few (one {c1 = c1} eq r) =
      let eq1 = subst (λ k. read_frame read c ≡ done (frame false k first, none, c1)) e eq in
      loop_more 101 0 text_message first [] 0 c c1 refl (omega arith) eq1
      ∙ loop_joined ps last first text_message 101 1 c1 c2 some_bytes (omega arith) (omega arith) r
      ∙ ap (λ k. done (k, first ++ (joined ps ++ last), none, c2)) (sym e)
  read_message-joined t first last ps c c2 (inr e) some_bytes few (one {c1 = c1} eq r) =
      let eq1 = subst (λ k. read_frame read c ≡ done (frame false k first, none, c1)) e eq in
      loop_more 101 0 binary_message first [] 0 c c1 refl (omega arith) eq1
      ∙ loop_joined ps last first binary_message 101 1 c1 c2 some_bytes (omega arith) (omega arith)
          r
      ∙ ap (λ k. done (k, first ++ (joined ps ++ last), none, c2)) (sym e)

  -- When the first of two fragments has no bytes, `ReadMessage` returns the op code 0 of
  -- the continuation frame in place of the op code that the first frame gives.
  pub read_message-forgets :
      (t : ℕ) (last : Bytes) (c c1 : Conn S W)
      → IsText t
      → Reads read c (frame false t [] ∷ frame true continuation_frame last ∷ []) c1
      → read_message read write c ≡ done (continuation_frame, last, none, c1)
  unfolding read_message read_message_loop guarded on_frame on_data is_data
  read_message-forgets t last c c1 (inl e) (one eq (one eq1 stop)) = rw (eq, e, eq1)
  read_message-forgets t last c c1 (inr e) (one eq (one eq1 stop)) = rw (eq, e, eq1)

  loop_refuses :
      (ps : List Bytes) (payload : Bytes) (fin_op f n : ℕ) (c c1 : Conn S W)
      → n + length ps ≡ 102
      → 0 < length ps
      → length ps ≤ f
      → Reads read c (continued ps none) c1
      → read_message_loop read write f n payload fin_op c
        ≡ done (continuation_frame, payload ++ joined ps, some message_max_read, c1)
  unfolding continued is_data
  loop_refuses ps payload fin_op zero n c c1 h k l r = absurd (omega arith)
  loop_refuses [] payload fin_op (suc f) n c c1 h k l r = absurd (omega arith)
  loop_refuses (p ∷ []) payload fin_op (suc f) n c c1 h k l (one eq stop) =
      loop_too_many f n 0 p payload fin_op c c1 refl (omega arith) eq
      ∙ ap (λ l. done (continuation_frame, payload ++ l, some message_max_read, c1))
          (sym (append-nil p))
  loop_refuses (p ∷ q ∷ ps) payload fin_op (suc f) n c c2 h k l (one {c1 = c1} eq r) =
      loop_more f n 0 p payload fin_op c c1 refl (omega arith) eq
      ∙ loop_refuses (q ∷ ps) (payload ++ p) fin_op f (n + 1) c1 c2 (omega arith) (omega arith)
          (omega arith) r
      ∙ ap (λ l. done (continuation_frame, l, some message_max_read, c2))
          (append_assoc payload p (joined (q ∷ ps)))

  -- After 102 frames that are not final, a text or binary frame and 101 continuation frames,
  -- `ReadMessage` stops with `ErrMessageMaxRead` and what it has, and reads no other frame.
  pub read_message-refuses :
      (t : ℕ) (first : Bytes) (ps : List Bytes) (c c1 : Conn S W)
      → IsText t
      → length ps ≡ 101
      → Reads read c (frame false t first ∷ continued ps none) c1
      → read_message read write c
        ≡ done (continuation_frame, first ++ joined ps, some message_max_read, c1)
  unfolding read_message is_data
  read_message-refuses t first ps c c2 (inl e) many (one {c1 = c1} eq r) =
      let eq1 = subst (λ k. read_frame read c ≡ done (frame false k first, none, c1)) e eq in
      loop_more 101 0 text_message first [] 0 c c1 refl (omega arith) eq1
      ∙ loop_refuses ps first text_message 101 1 c1 c2 (omega arith) (omega arith) (omega arith) r
  read_message-refuses t first ps c c2 (inr e) many (one {c1 = c1} eq r) =
      let eq1 = subst (λ k. read_frame read c ≡ done (frame false k first, none, c1)) e eq in
      loop_more 101 0 binary_message first [] 0 c c1 refl (omega arith) eq1
      ∙ loop_refuses ps first binary_message 101 1 c1 c2 (omega arith) (omega arith) (omega arith) r
