-- ===== src/Request/Tests.antt =====
-- server/mqtt/request.go and what Invoke sends: runs.
use kratos_transport_rpc.Prelude.{
  ◌≡◌, ◌≢◌, ◌⊎◌, refl, Option, none, some, [], Bytes, Lacks, index_byte, index_byte-none, arith,
}
use kratos_transport_rpc.Prelude.Text.{codes}
use kratos_transport_rpc.Io.{IoError, done}
use kratos_transport_rpc.Io.Memory.{string_read}
use kratos_transport_rpc.Bufio.Reader.{Reader, new_reader, default_buf_size}
use kratos_transport_rpc.Bufio.Lines.Exact.{Holds}
use kratos_transport_rpc.ByteWriter.{buffer}
use kratos_transport_rpc.Wire.{request_message, decimal}
use kratos_transport_rpc.Wire.Messages.{buffer-request_message}
use kratos_transport_rpc.Request.{Request, read_request, canonical_key, trim, parse_request_line}
use kratos_transport_rpc.Request.Text.{three_parts, parse_request_line_lem}
use kratos_transport_rpc.Request.Words.{word_test, word_test_sound}
use kratos_transport_rpc.Request.Total.{read_request-total}
use kratos_transport_rpc.Request.Exact.{sent_request, read_request-request_message}

canonical_key_runs : canonical_key (codes "message-ID") ≡ codes "Message-Id"
unfolding canonical_key
canonical_key_runs = refl

-- a name with a space is kept as it is
canonical_key_keeps : canonical_key (codes "message ID") ≡ codes "message ID"
unfolding canonical_key
canonical_key_keeps = refl

parse_runs :
    parse_request_line (codes "GET /foo HTTP/1.1")
    ≡ some (codes "GET", codes "/foo", codes "HTTP/1.1")
unfolding parse_request_line
parse_runs = refl

parse_fails : parse_request_line (codes "GET /foo") ≡ none
unfolding parse_request_line
parse_fails = refl

trim_runs : trim (codes "  a b ") ≡ codes "a b"
unfolding trim
trim_runs = refl

decimal_runs : decimal 1204 ≡ codes "1204"
unfolding decimal
decimal_runs = refl

read_request-request_message_example :
    (b1 : Reader Bytes) × (read_request string_read 4 (
        new_reader (
          buffer (
            request_message
              (codes "/helloworld.Greeter/SayHello")
              (codes "json")
              (codes "0d5e")
              (codes "{}"))))
      ≡ done (
        some (
            sent_request
              (codes "/helloworld.Greeter/SayHello")
              (codes "json")
              (codes "0d5e")
              (codes "{}")),
        none,
        b1,
      ))
    × Holds default_buf_size [] b1
unfolding word_test index_byte decimal
read_request-request_message_example =
    read_request-request_message 4 (codes "/helloworld.Greeter/SayHello") (codes "json")
      (codes "0d5e") (codes "{}") (omega arith)
      (word_test_sound (codes "/helloworld.Greeter/SayHello") refl)
      (word_test_sound (codes "json") refl) (word_test_sound (codes "0d5e") refl) (omega arith)
      (index_byte-none (codes "{}") 0 refl)
      (rw
        (buffer-request_message (codes "/helloworld.Greeter/SayHello") (codes "json") (codes "0d5e")
          (codes "{}"))
        (omega arith))

parse_request_line_lem_example :
    ((m : Bytes) × (u : Bytes) × (p : Bytes) × (parse_request_line (codes "REQ /a MQT/1.0")
        ≡ some (m, u, p))
      × (codes "REQ /a MQT/1.0" ≡ three_parts m u p)
      × Lacks b' ' m
      × Lacks b' ' u)
    ⊎ (parse_request_line (codes "REQ /a MQT/1.0") ≡ none)
      × ((m u p : Bytes) → Lacks b' ' m → Lacks b' ' u → codes "REQ /a MQT/1.0" ≢ three_parts m u p)
parse_request_line_lem_example = parse_request_line_lem (codes "REQ /a MQT/1.0")

-- A first line of which only the beginning has come.
read_request-total_example :
    (request : Option Request) × (error : Option IoError) × (after : Reader Bytes) × (read_request
        string_read 9
        (new_reader (codes "REQ /He\r"))
      ≡ done (request, error, after))
read_request-total_example = read_request-total 9 (codes "REQ /He\r") (omega arith)
