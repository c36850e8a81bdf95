-- ===== src/Wire/Layout.antt =====
-- The response of the handler of RegRoute, byte by byte.
use kratos_transport_rpc.Prelude.{
  ℕ, zero, suc, ◌+◌, ◌-◌, ◌*◌, ◌/◌, ◌%◌, ◌≤◌, ◌<◌, ◌≡◌, refl, ap, ◌∙◌, List, [], ◌∷◌, ◌++◌,
  append_assoc, Bytes, length, ltb, ltb→lt, ltb→le, Bool-cases, inl, inr, arith,
}
use kratos_transport_rpc.Prelude.Text.{codes, join}
use kratos_transport_rpc.ByteWriter.{buffer}
use kratos_transport_rpc.Wire.{digits, decimal, listed, response_message}
use kratos_transport_rpc.Wire.Messages.{response_text, buffer-response_message}

-- The number that digits stand for, behind those that have been read
abbrev pub number : ℕ → Bytes → ℕ
number n [] = n
number n (x ∷ s) = number (n * 10 + (x - b'0')) s

abbrev pub AllDigits : Bytes → Type 0
AllDigits [] = Unit
AllDigits (x ∷ s) = (b'0' ≤ x) × (x ≤ b'9') × AllDigits s

pub number-digits : (f n : ℕ) (acc : Bytes) → n < f → number 0 (digits f n acc) ≡ number n acc
unfolding digits
number-digits zero n acc h = absurd (omega arith)
number-digits (suc f) n acc h = elim (Bool-cases (ltb n 10)) [
  | inl small ↦
      let lt : n < 10 = ltb→lt n 10 small in rw small (ap (λ k. number k acc) (omega arith))
  | inr large ↦
      let le : 10 ≤ n = ltb→le n 10 large in
      rw large (
        number-digits f (n / 10) ((b'0' + n % 10) ∷ acc) (omega arith)
        ∙ ap (λ k. number k acc) (omega arith))
]

pub digits-AllDigits : (f n : ℕ) (acc : Bytes) → AllDigits acc → AllDigits (digits f n acc)
unfolding digits
digits-AllDigits zero n acc all = all
digits-AllDigits (suc f) n acc all =
    let more : AllDigits ((b'0' + n % 10) ∷ acc) = (omega arith, omega arith, all) in
    elim (Bool-cases (ltb n 10)) [
      | inl small ↦ rw small more
      | inr large ↦ rw large (digits-AllDigits f (n / 10) ((b'0' + n % 10) ∷ acc) more)
    ]

listed-join : (l : List Bytes) → listed l ≡ join (codes " ") l
unfolding listed join
listed-join [] = refl
listed-join (v ∷ []) = refl
listed-join (v ∷ w ∷ l) = ap (λ x. v ++ (b' ' ∷ x)) (listed-join (w ∷ l))

-- A response with the content types, the message id, the digits of its length and the body.
abbrev pub layout : Bytes → Bytes → Bytes → Bytes → Bytes
layout types msg_id size body =
    codes "MQT/1.0 200 scratch \r\nContent-Type: application/["
    ++ (types
        ++ (codes "]\r\nMessage-Id: "
            ++ (msg_id ++ (codes "\r\nContent-Length: " ++ (size ++ (codes "\r\n\r\n" ++ body))))))

response_text-layout :
    (types : List Bytes) (msg_id body : Bytes)
    → response_text types msg_id body ≡ layout (listed types) msg_id (decimal (length body)) body
unfolding decimal digits
response_text-layout types msg_id body = simp append_assoc refl

-- The response that the handler of RegRoute publishes has, in this order and with these bytes: the
-- status line, the content types of the request with a space between them in brackets behind
-- "application/", the message id, the length of the body in decimal digits, which stand for that
-- number, an empty line, and the body.
pub response_message-layout :
    (types : List Bytes) (msg_id body : Bytes)
    → (size : Bytes) × AllDigits size
      × (number 0 size ≡ length body)
      × (buffer (response_message types msg_id body)
          ≡ layout (join (codes " ") types) msg_id size body)
unfolding decimal
response_message-layout types msg_id body =
    let n = length body in
    (
      decimal n,
      digits-AllDigits (n + 1) n [] tt,
      number-digits (n + 1) n [] (omega arith),
      buffer-response_message types msg_id body
          ∙ response_text-layout types msg_id body
          ∙ ap (λ l. layout l msg_id (decimal n) body) (listed-join types),
    )
