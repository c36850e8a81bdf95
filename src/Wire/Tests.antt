-- ===== src/Wire/Tests.antt =====
-- server/mqtt/server.go: what the handler of RegRoute answers, on an example.
use kratos_transport_rpc.Prelude.{◌≡◌, refl, ◌∙◌, [], ◌∷◌, ◌++◌, Bytes}
use kratos_transport_rpc.Prelude.Text.{codes, join}
use kratos_transport_rpc.ByteWriter.{buffer}
use kratos_transport_rpc.Wire.{response_message, decimal, listed, crlf}
use kratos_transport_rpc.Wire.Layout.{AllDigits, number, layout, response_message-layout}
use kratos_transport_rpc.Wire.Messages.{buffer-response_message}

-- `%s` of the slice of content types puts brackets into the header.
response_runs :
    buffer (response_message (codes "application/json" ∷ []) (codes "0d5e") (codes "{}"))
    ≡ codes "MQT/1.0 200 scratch "
      ++ (crlf
          ++ (codes "Content-Type: application/[application/json]"
              ++ (crlf
                  ++ (codes "Message-Id: 0d5e"
                      ++ (crlf ++ (codes "Content-Length: 2" ++ (crlf ++ (crlf ++ codes "{}"))))))))
unfolding decimal listed
response_runs =
    buffer-response_message (codes "application/json" ∷ []) (codes "0d5e") (codes "{}") ∙ refl

response_message-layout_example :
    (size : Bytes) × AllDigits size
    × (number 0 size ≡ 2)
    × (buffer
          (response_message (codes "application/json" ∷ codes "b" ∷ []) (codes "0d5e") (codes "{}"))
        ≡ layout (codes "application/json b") (codes "0d5e") size (codes "{}"))
unfolding join
response_message-layout_example =
    response_message-layout (codes "application/json" ∷ codes "b" ∷ []) (codes "0d5e") (codes "{}")
