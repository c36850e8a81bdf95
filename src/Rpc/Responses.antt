-- ===== src/Rpc/Responses.antt =====
-- The callback of Send in server/mqtt/client.go on what the handler of RegRoute in
-- server/mqtt/server.go publishes.
use kratos_transport_rpc.Prelude.{
  ℕ, suc, ◌-◌, ◌≤◌, ◌<◌, ◌≡◌, refl, subst, Option, none, some, List, [], ◌++◌, drop, Bytes, length,
  index_byte, Lacks, index_byte-none, arith,
}
use kratos_transport_rpc.Prelude.Text.{codes}
use kratos_transport_rpc.Prelude.Maps.{lookup, equal_bytes}
use kratos_transport_rpc.Io.{done}
use kratos_transport_rpc.Io.Memory.{string_read}
use kratos_transport_rpc.Bufio.Reader.{Reader, new_reader, new_reader_size, default_buf_size}
use kratos_transport_rpc.ByteWriter.{buffer}
use kratos_transport_rpc.Request.{Request, read_rest, read_parts, read_request, get_value}
use kratos_transport_rpc.Request.Text.{three_parts, parse-three_parts}
use kratos_transport_rpc.Request.Words.{IsWord, IsWord-append, word_test, word_test_sound}
use kratos_transport_rpc.Request.Headers.{Stock, full_line_in}
use kratos_transport_rpc.Request.Exact.{header_in, new_reader-Holds, request_header}
use kratos_transport_rpc.Wire.{listed, decimal, crlf, response_message}
use kratos_transport_rpc.Wire.Messages.{response_text, buffer-response_message}
use kratos_transport_rpc.Rpc.{Any, Codec, receive, on_reply, codec_of, fill_out, signal}
use kratos_transport_rpc.Rpc.Answers.{not_empty}

-- A response that the handler can publish for content types that are one word, and that fits the
-- reader's buffer: a message id and a body that are not empty, no zero byte in the body; and
-- enough rounds.
pub record Readable (f : ℕ) (types : List Bytes) (msg_id body : Bytes) : Type 0 where
  pub rounds : 4 ≤ f
  pub types_word : IsWord (listed types)
  pub id_word : IsWord msg_id
  pub some_id : 0 < length msg_id
  pub some_body : 0 < length body
  pub no_zero : Lacks 0 body
  pub fits : length (buffer (response_message types msg_id body)) ≤ default_buf_size

-- the content type behind "application/"
abbrev pub bracketed : List Bytes → Bytes
bracketed types = codes "[" ++ (listed types ++ codes "]")

abbrev response_of : Bytes → Bytes → Bytes → List Bytes → Bytes → Bytes → Request
response_of m u p types msg_id body = record {
  method = m;
  request_uri = u;
  proto = p;
  host = [];
  header = request_header (bracketed types) msg_id body;
  body = body;
}

-- The status line is split like a request's: the code is in the place of the URI.
abbrev read_response : List Bytes → Bytes → Bytes → Request
read_response types msg_id body =
    response_of (codes "MQT/1.0") (codes "200") (codes "scratch ") types msg_id body

bracketed-IsWord : (types : List Bytes) → IsWord (listed types) → IsWord (bracketed types)
unfolding word_test
bracketed-IsWord types word =
    IsWord-append (codes "[") (listed types ++ codes "]") (word_test_sound (codes "[") refl)
      (IsWord-append (listed types) (codes "]") word (word_test_sound (codes "]") refl))

module _ (f : ℕ) (types : List Bytes) (msg_id body : Bytes)
    (readable : Readable f types msg_id body) where
  -- a first line of three parts, with the headers and the body of a response behind it
  parts_in :
      (g : ℕ) (m u p next : Bytes) (b : Reader Bytes)
      → Lacks b' ' m
      → Lacks b' ' u
      → Lacks b'\n' (three_parts m u p)
      → next ≡ drop (length (codes "MQT/1.0 200 scratch \r\n")) (response_text types msg_id body)
      → Stock default_buf_size (three_parts m u p ++ (crlf ++ next)) b
      → (b1 : Reader Bytes) × (read_request string_read (suc (suc (suc (suc g)))) b
          ≡ done (some (response_of m u p types msg_id body), none, b1))
  unfolding read_request read_parts read_rest get_value decimal
  parts_in g m u p next b lm lu newline behind s =
      let h = suc (suc (suc g)) in
      let (b1, e1, s1) = full_line_in default_buf_size h (three_parts m u p) next b s newline in
      let (b2, e2, _) =
        header_in default_buf_size g [] (bracketed types) msg_id body b1
          (bracketed-IsWord types readable.types_word) readable.id_word readable.some_id
          readable.no_zero (subst (λ l. Stock default_buf_size l b1) behind s1) in
      (b2, rw (e1, parse-three_parts m u p lm lu, e2))

  response_in :
      (g : ℕ) (b : Reader Bytes)
      → Stock default_buf_size (response_text types msg_id body) b
      → (b1 : Reader Bytes) × (read_request string_read (suc (suc (suc (suc g)))) b
          ≡ done (some (read_response types msg_id body), none, b1))
  unfolding index_byte decimal
  response_in g b s =
      parts_in g (codes "MQT/1.0") (codes "200") (codes "scratch ") _ b
        (index_byte-none (codes "MQT/1.0") b' ' refl) (index_byte-none (codes "200") b' ' refl)
        (index_byte-none (three_parts (codes "MQT/1.0") (codes "200") (codes "scratch ")) b'\n'
          refl)
        refl s

  response_read :
      (b1 : Reader Bytes) × (read_request string_read f
          (new_reader (buffer (response_message types msg_id body)))
        ≡ done (some (read_response types msg_id body), none, b1))
  unfolding new_reader
  response_read =
      let sent = buffer (response_message types msg_id body) in
      let e : sent ≡ response_text types msg_id body = buffer-response_message types msg_id body in
      let g = f - 4 in
      let enough : suc (suc (suc (suc g))) ≡ f = omega (arith, readable.rounds) in
      let start : Stock default_buf_size (response_text types msg_id body)
          (new_reader_size sent default_buf_size) =
        subst (λ l. Stock default_buf_size l (new_reader_size sent default_buf_size)) e
          (new_reader-Holds default_buf_size sent (omega arith), readable.fits) in
      let (b1, eq) = response_in g (new_reader_size sent default_buf_size) start in
      (
        b1,
        subst
            (λ n.
              read_request string_read n (new_reader_size sent default_buf_size)
              ≡ done (some (read_response types msg_id body), none, b1))
            enough eq,
      )

  -- What the handler of RegRoute publishes, the callback of Send reads: it fills its result with
  -- what the json codec makes of the body, and signals, or waits where the channel is full. The
  -- response is one whose content types
  -- are one word and that fits the reader's buffer, and there is a json codec.
  pub receive-response_message :
      {V : Type 0} (get_codec : Bytes → Option (Codec V)) (json : Codec V) (out : Any V) (held : ℕ)
      → get_codec (codes "json") ≡ some json
      → receive get_codec f (buffer (response_message types msg_id body)) out held
        ≡ done ((signal held).0, json.unmarshal body out, (signal held).1)
  unfolding receive on_reply lookup codec_of equal_bytes fill_out
  receive-response_message get_codec json out held codec_eq =
      let (b1, eq) = response_read in rw (eq, not_empty (length body) readable.some_body, codec_eq)
