-- ===== src/Wire/Messages.antt =====
-- The text that `Invoke` and the handler of `RegRoute` put into the writer.
use kratos_transport_rpc.Prelude.{
  ◌≡◌, ap, ◌∙◌, List, [], ◌∷◌, ◌++◌, joined, append-nil, Bytes, length,
}
use kratos_transport_rpc.Prelude.Text.{codes}
use kratos_transport_rpc.ByteWriter.{buffer}
use kratos_transport_rpc.ByteWriter.Append.{write_all, fresh-buffer}
use kratos_transport_rpc.Wire.{
  crlf, decimal, write_first_line, write_status_line, write_header, write_header_int, header_line,
  listed, writer_size, content_type, message_id, content_length, request_message, response_message,
}

-- What the request consists of, in order.
abbrev pub request_text : Bytes → Bytes → Bytes → Bytes → Bytes
request_text uri codec msg_id body =
    (codes "REQ " ++ (uri ++ (codes " MQT/1.0" ++ crlf)))
    ++ (header_line content_type (codes "application/" ++ codec)
        ++ (header_line message_id msg_id
            ++ (header_line content_length (decimal (length body)) ++ (crlf ++ body))))

-- The pieces that `Invoke` writes.
request_pieces : Bytes → Bytes → Bytes → Bytes → List Bytes
request_pieces uri codec msg_id body =
    (codes "REQ " ++ (uri ++ (codes " MQT/1.0" ++ crlf)))
    ∷ header_line content_type (codes "application/" ++ codec)
    ∷ header_line message_id msg_id
    ∷ header_line content_length (decimal (length body))
    ∷ crlf
    ∷ body
    ∷ []

-- Joining the pieces is writing them one behind another.
request_pieces-joined :
    (uri codec msg_id body : Bytes)
    → joined (request_pieces uri codec msg_id body) ≡ request_text uri codec msg_id body
unfolding request_pieces
request_pieces-joined uri codec msg_id body =
    ap
      (λ l.
        (codes "REQ " ++ (uri ++ (codes " MQT/1.0" ++ crlf)))
        ++ (header_line content_type (codes "application/" ++ codec)
            ++ (header_line message_id msg_id
                ++ (header_line content_length (decimal (length body)) ++ (crlf ++ l)))))
      (append-nil body)

-- What `Invoke` sends is the first line, three header lines, an empty line and the body.
pub buffer-request_message :
    (uri codec msg_id body : Bytes)
    → buffer (request_message uri codec msg_id body) ≡ request_text uri codec msg_id body
unfolding request_message write_first_line write_header write_header_int write_all request_pieces
buffer-request_message uri codec msg_id body =
    fresh-buffer writer_size (request_pieces uri codec msg_id body)
    ∙ request_pieces-joined uri codec msg_id body

abbrev pub response_text : List Bytes → Bytes → Bytes → Bytes
response_text types msg_id body =
    (codes "MQT/1.0 " ++ (decimal 200 ++ (codes " " ++ (codes "scratch" ++ (codes " " ++ crlf)))))
    ++ (header_line content_type (codes "application/[" ++ (listed types ++ codes "]"))
        ++ (header_line message_id msg_id
            ++ (header_line content_length (decimal (length body)) ++ (crlf ++ body))))

response_pieces : List Bytes → Bytes → Bytes → List Bytes
response_pieces types msg_id body =
    (codes "MQT/1.0 " ++ (decimal 200 ++ (codes " " ++ (codes "scratch" ++ (codes " " ++ crlf)))))
    ∷ header_line content_type (codes "application/[" ++ (listed types ++ codes "]"))
    ∷ header_line message_id msg_id
    ∷ header_line content_length (decimal (length body))
    ∷ crlf
    ∷ body
    ∷ []

response_pieces-joined :
    (types : List Bytes) (msg_id body : Bytes)
    → joined (response_pieces types msg_id body) ≡ response_text types msg_id body
unfolding response_pieces
response_pieces-joined types msg_id body =
    ap
      (λ l.
        (codes "MQT/1.0 "
          ++ (decimal 200 ++ (codes " " ++ (codes "scratch" ++ (codes " " ++ crlf)))))
        ++ (header_line content_type (codes "application/[" ++ (listed types ++ codes "]"))
            ++ (header_line message_id msg_id
                ++ (header_line content_length (decimal (length body)) ++ (crlf ++ l)))))
      (append-nil body)

pub buffer-response_message :
    (types : List Bytes) (msg_id body : Bytes)
    → buffer (response_message types msg_id body) ≡ response_text types msg_id body
unfolding response_message write_status_line write_header write_header_int write_all response_pieces
buffer-response_message types msg_id body =
    fresh-buffer writer_size (response_pieces types msg_id body)
    ∙ response_pieces-joined types msg_id body
