-- ===== src/Request/Exact.antt =====
-- `ReadRequest` reads what `Invoke` sends.
use kratos_transport_rpc.Prelude.{
  ℕ, suc, ◌-◌, ◌≤◌, ◌<◌, ◌≡◌, refl, ap, sym, subst, ◌∙◌, inl, none, some, [], ◌∷◌, ◌++◌,
  append_assoc, Bytes, length, length-replicate, replicate, le→ltb, index_byte, Lacks, Lacks-append,
  index_byte-none, arith,
}
use kratos_transport_rpc.Prelude.Text.{codes}
use kratos_transport_rpc.Io.{eof, done}
use kratos_transport_rpc.Io.Memory.{string_read}
use kratos_transport_rpc.Bufio.Reader.{Reader, new_reader, new_reader_size, default_buf_size}
use kratos_transport_rpc.Bufio.Lines.Exact.{Holds}
use kratos_transport_rpc.Request.{
  Request, Header, add_value, read_header, read_rest, read_parts, read_request, get_value,
}
use kratos_transport_rpc.Request.Text.{three_parts, parse-three_parts}
use kratos_transport_rpc.Wire.{
  request_message, crlf, decimal, header_line, content_type, message_id, content_length,
}
use kratos_transport_rpc.Wire.Messages.{request_text, buffer-request_message}
use kratos_transport_rpc.ByteWriter.{buffer}
use kratos_transport_rpc.Request.Words.{
  IsWord, IsWord-append, IsWord-newline, IsWord-space, word_test, word_test_sound, decimal-IsWord,
}
use kratos_transport_rpc.Request.Headers.{Stock, Pair, full_line_in, Pair-in, body_in}

-- The header that the server finds.
abbrev pub request_header : Bytes → Bytes → Bytes → Header
request_header codec msg_id body =
    (content_type, (codes "application/" ++ codec) ∷ [])
    ∷ (message_id, msg_id ∷ [])
    ∷ (content_length, decimal (length body) ∷ [])
    ∷ []

abbrev pub sent_request : Bytes → Bytes → Bytes → Bytes → Request
sent_request uri codec msg_id body = record {
  method = codes "REQ";
  request_uri = uri;
  proto = codes "MQT/1.0";
  host = [];
  header = request_header codec msg_id body;
  body = body;
}

keys_add :
    (v1 v2 v3 : Bytes)
    → add_value content_length v3 (add_value message_id v2 (add_value content_type v1 []))
      ≡ ((content_type, v1 ∷ []) ∷ (message_id, v2 ∷ []) ∷ (content_length, v3 ∷ []) ∷ [])
unfolding add_value
keys_add v1 v2 v3 = refl

content_type-Pair : (size f : ℕ) (v : Bytes) → IsWord v → 0 < length v → Pair size f content_type v
unfolding index_byte
content_type-Pair size f v w n = record {
  some_key = omega arith;
  key_solid = refl;
  key_colon = index_byte-none content_type b':' refl;
  key_newline = index_byte-none content_type b'\n' refl;
  word = w;
  some_value = n;
}

message_id-Pair : (size f : ℕ) (v : Bytes) → IsWord v → 0 < length v → Pair size f message_id v
unfolding index_byte
message_id-Pair size f v w n = record {
  some_key = omega arith;
  key_solid = refl;
  key_colon = index_byte-none message_id b':' refl;
  key_newline = index_byte-none message_id b'\n' refl;
  word = w;
  some_value = n;
}

content_length-Pair :
    (size f : ℕ) (v : Bytes) → IsWord v → 0 < length v → Pair size f content_length v
unfolding index_byte
content_length-Pair size f v w n = record {
  some_key = omega arith;
  key_solid = refl;
  key_colon = index_byte-none content_length b':' refl;
  key_newline = index_byte-none content_length b'\n' refl;
  word = w;
  some_value = n;
}

module _ (size g : ℕ) (uri codec msg_id body : Bytes) where
  pub header_in :
      (b : Reader Bytes)
      → IsWord codec
      → IsWord msg_id
      → 0 < length msg_id
      → Lacks 0 body
      → Stock size
          (header_line content_type (codes "application/" ++ codec)
            ++ (header_line message_id msg_id
                ++ (header_line content_length (decimal (length body)) ++ (crlf ++ body))))
          b
      → (b1 : Reader Bytes) × (read_header string_read
            (suc (suc (suc (suc g))))
            (suc (suc (suc (suc g))))
            []
            b
          ≡ done (request_header codec msg_id body, body, some eof, b1))
        × Holds size [] b1
  unfolding word_test
  header_in b wc wm sm lacks s =
      let f = suc (suc (suc g)) in
      let (wd, sd) = decimal-IsWord (length body) in
      let app : IsWord (codes "application/" ++ codec) =
        IsWord-append (codes "application/") codec (word_test_sound (codes "application/") refl)
          wc in
      let (b1, e1, s1) =
        Pair-in size f f [] content_type (codes "application/" ++ codec) _ b
          (content_type-Pair size f _ app (omega arith)) s in
      let (b2, e2, s2) =
        Pair-in size f (suc (suc g)) _ message_id msg_id _ b1 (message_id-Pair size f msg_id wm sm)
          s1 in
      let (b3, e3, s3) =
        Pair-in size f (suc g) _ content_length (decimal (length body)) _ b2
          (content_length-Pair size f _ wd sd) s2 in
      let (b4, e4, s4) = body_in size f g _ body b3 lacks s3 in
      (
        b4,
        e1
            ∙ e2
            ∙ e3
            ∙ e4
            ∙ ap (λ h. done (h, body, some eof, b4))
                (keys_add (codes "application/" ++ codec) msg_id (decimal (length body))),
        s4,
      )

  start_in :
      (b : Reader Bytes)
      → IsWord uri
      → IsWord codec
      → IsWord msg_id
      → 0 < length msg_id
      → Lacks 0 body
      → Stock size (request_text uri codec msg_id body) b
      → (b1 : Reader Bytes) × (read_request string_read (suc (suc (suc (suc g)))) b
          ≡ done (some (sent_request uri codec msg_id body), none, b1))
        × Holds size [] b1
  unfolding read_request read_parts read_rest index_byte get_value
  start_in b wu wc wm sm lacks s =
      let f = suc (suc (suc g)) in
      let line = three_parts (codes "REQ") uri (codes "MQT/1.0") in
      let split =
        append_assoc uri (codes " MQT/1.0" ++ crlf) _
        ∙ sym (append_assoc uri (codes " MQT/1.0") (crlf ++ _)) in
      let newline =
        Lacks-append b'\n' uri (codes " MQT/1.0") (IsWord-newline uri wu)
          (index_byte-none (codes " MQT/1.0") b'\n' refl) in
      let (b1, e1, s1) =
        full_line_in size f line _ b
          (subst (λ l. Stock size l b) (ap (λ l. codes "REQ " ++ l) split) s)
          (Lacks-append b'\n' (codes "REQ ") (uri ++ codes " MQT/1.0")
            (index_byte-none (codes "REQ ") b'\n' refl) newline) in
      let (b2, e2, s2) = header_in b1 wc wm sm lacks s1 in
      (
        b2,
        rw (
          e1,
          parse-three_parts (codes "REQ") uri (codes "MQT/1.0")
              (index_byte-none (codes "REQ") b' ' refl) (IsWord-space uri wu),
          e2,
        ),
        s2,
      )

pub new_reader-Holds : (size : ℕ) (s : Bytes) → 16 ≤ size → Holds size s (new_reader_size s size)
unfolding new_reader_size
new_reader-Holds size s h =
    let len : length (replicate {A = ℕ} size 0) ≡ size = length-replicate {A = ℕ} size 0 in
    rw (le→ltb size 16 h)
      (record { valid = omega (arith, len); fed = inl refl; size_eq = len; stream_eq = refl })

-- What `Invoke` puts into its writer, `ReadRequest` reads back on the other side from a new
-- reader: the method REQ, the URI, the three header values and the body, without an error. The
-- URI, the codec's name and the message id are words (no space, tab or newline), the id is not
-- empty, the body has no zero byte, and the whole message has at most the 4096 bytes of the
-- reader's buffer. Four rounds for each loop are enough.
pub read_request-request_message :
    (f : ℕ) (uri codec msg_id body : Bytes)
    → 4 ≤ f
    → IsWord uri
    → IsWord codec
    → IsWord msg_id
    → 0 < length msg_id
    → Lacks 0 body
    → length (buffer (request_message uri codec msg_id body)) ≤ default_buf_size
    → (b1 : Reader Bytes) × (read_request string_read f
          (new_reader (buffer (request_message uri codec msg_id body)))
        ≡ done (some (sent_request uri codec msg_id body), none, b1))
      × Holds default_buf_size [] b1
unfolding new_reader
read_request-request_message f uri codec msg_id body rounds wu wc wm sm lacks fits =
    let text = buffer (request_message uri codec msg_id body) in
    let e : text ≡ request_text uri codec msg_id body =
      buffer-request_message uri codec msg_id body in
    let g = f - 4 in
    let enough : suc (suc (suc (suc g))) ≡ f = omega arith in
    let start : Stock default_buf_size (request_text uri codec msg_id body)
        (new_reader_size text default_buf_size) =
      subst (λ l. Stock default_buf_size l (new_reader_size text default_buf_size)) e
        (new_reader-Holds default_buf_size text (omega arith), fits) in
    let (b1, eq, h) =
      start_in default_buf_size g uri codec msg_id body (new_reader_size text default_buf_size) wu
        wc wm sm lacks start in
    (
      b1,
      subst
          (λ n.
            read_request string_read n (new_reader_size text default_buf_size)
            ≡ done (some (sent_request uri codec msg_id body), none, b1))
          enough eq,
      h,
    )
