-- ===== src/Wire.antt =====
-- The text of requests and responses: server/mqtt/server.go (writeFirstLine to writeHeaderInt, and
-- what the handler of RegRoute sends) and server/mqtt/client.go (what Invoke sends). They are
-- written through bytes.Writer. `fmt.Sprintf` is written out for the formats that occur.
pub mod Messages
pub mod Layout
mod Tests
use kratos_transport_rpc.Prelude.{
  ℕ, zero, suc, ◌+◌, ◌-◌, ◌*◌, ◌/◌, ◌%◌, List, [], ◌∷◌, ◌++◌, Bytes, length, ltb, if◌then◌else◌,
}
use kratos_transport_rpc.Prelude.Text.{codes}
use kratos_transport_rpc.ByteWriter.{ByteWriter, new_writer_size, write, buffer}

abbrev pub crlf : Bytes
crlf = b'\r' ∷ b'\n' ∷ []

-- `%d` of a length, by its digits from the last on
unfoldable pub digits : ℕ → ℕ → Bytes → Bytes
digits zero n acc = acc
digits (suc f) n acc =
    let rest = digits f (n / 10) ((b'0' + n % 10) ∷ acc) in
    if ltb n 10 then (b'0' + n % 10) ∷ acc else rest

unfoldable pub decimal : ℕ → Bytes
unfolding digits
decimal n = digits (n + 1) n []

unfoldable pub write_first_line : Bytes → ByteWriter → ByteWriter
unfolding write
write_first_line method w = write (codes "REQ " ++ (method ++ (codes " MQT/1.0" ++ crlf))) w

unfoldable pub write_status_line : ℕ → Bytes → ByteWriter → ByteWriter
unfolding write decimal
write_status_line code scratch w =
    write (codes "MQT/1.0 " ++ (decimal code ++ (codes " " ++ (scratch ++ (codes " " ++ crlf))))) w

-- "head: context"
abbrev pub header_line : Bytes → Bytes → Bytes
header_line head context = head ++ (b':' ∷ b' ' ∷ context ++ crlf)

unfoldable pub write_header : Bytes → Bytes → ByteWriter → ByteWriter
unfolding write
write_header head context w = write (header_line head context) w

unfoldable pub write_header_int : Bytes → ℕ → ByteWriter → ByteWriter
unfolding write decimal
write_header_int head context w = write (header_line head (decimal context)) w

-- `%s` of a list of texts
unfoldable pub listed : List Bytes → Bytes
listed [] = []
listed (v ∷ []) = v
listed (v ∷ w ∷ vs) = v ++ (b' ' ∷ listed (w ∷ vs))

abbrev pub writer_size : ℕ
writer_size = 65536

abbrev pub content_type : Bytes
content_type = codes "Content-Type"

abbrev pub message_id : Bytes
message_id = codes "Message-Id"

abbrev pub content_length : Bytes
content_length = codes "Content-Length"

-- The request that `Invoke` sends: `body` is what the codec makes of the argument.
unfoldable pub request_message : Bytes → Bytes → Bytes → Bytes → ByteWriter
unfolding write_first_line write_header write_header_int new_writer_size
request_message uri codec msg_id body =
    let w = write_first_line uri (new_writer_size writer_size) in
    let w1 = write_header content_type (codes "application/" ++ codec) w in
    let w2 = write_header message_id msg_id w1 in
    let w3 = write_header_int content_length (length body) w2 in write body (write crlf w3)

-- The response of the handler in `RegRoute`: `types` are the content types of the request.
unfoldable pub response_message : List Bytes → Bytes → Bytes → ByteWriter
unfolding write_status_line write_header write_header_int new_writer_size listed
response_message types msg_id body =
    let w = write_status_line 200 (codes "scratch") (new_writer_size writer_size) in
    let w1 = write_header content_type (codes "application/[" ++ (listed types ++ codes "]")) w in
    let w2 = write_header message_id msg_id w1 in
    let w3 = write_header_int content_length (length body) w2 in write body (write crlf w3)
