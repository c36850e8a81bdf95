-- ===== src/Rpc/Signals.antt =====
-- The callback that Send of server/mqtt/client.go leaves among the subscribers, on responses that
-- come while nobody receives from its channel.
use kratos_transport_rpc.Prelude.{
  ℕ, ◌+◌, ◌-◌, ◌≡◌, refl, ap, Option, some, List, [], ◌∷◌, map, Bytes, length, arith,
}
use kratos_transport_rpc.Prelude.Text.{codes}
use kratos_transport_rpc.Io.{Outcome, done, ◌>>=◌}
use kratos_transport_rpc.ByteWriter.{buffer}
use kratos_transport_rpc.Wire.{response_message}
use kratos_transport_rpc.Rpc.{Any, Codec, Ending, returned, waiting, signal, receive}
use kratos_transport_rpc.Rpc.Responses.{Readable, receive-response_message}

abbrev waits : Ending → ℕ
waits (returned e) = 0
waits waiting = 1

-- A response by its content types, message id and body
abbrev pub Response : Type 0
Response = List Bytes × Bytes × Bytes

abbrev pub published : Response → Bytes
published (types, msg_id, body) = buffer (response_message types msg_id body)

abbrev pub AllReadable : ℕ → List Response → Type 0
AllReadable f [] = Unit
AllReadable f ((types, msg_id, body) ∷ rs) = Readable f types msg_id body × AllReadable f rs

module _ {V : Type 0} (get_codec : Bytes → Option (Codec V)) (f : ℕ) where
  -- How many callbacks wait after messages one behind another, each of which has a goroutine of its
  -- own; `held` values are in the channel, and nobody takes any.
  unfoldable pub waiting_after : List Bytes → Any V → ℕ → Outcome ℕ
  unfolding receive
  waiting_after [] out held = done 0
  waiting_after (raw ∷ raws) out held =
      receive get_codec f raw out held >>= λ (ending, out1, held1).
      waiting_after raws out1 held1 >>= λ n. done (waits ending + n)

  module _ (json : Codec V) (known : get_codec (codes "json") ≡ some json) where
    waiting_after-full :
        (rs : List Response) (out : Any V)
        → AllReadable f rs
        → waiting_after (map published rs) out 1 ≡ done (length rs)
    unfolding waiting_after signal
    waiting_after-full [] out all = refl
    waiting_after-full ((types, msg_id, body) ∷ rs) out (readable, all) =
        rw
          (
            receive-response_message f types msg_id body readable get_codec json out 1 known,
            waiting_after-full rs (json.unmarshal body out) all,
          )
          (ap done (omega arith))

    -- Of the responses that come for a callback while its channel is empty and nobody receives from
    -- it, as after Send has returned, the first is signalled, and the callback of each later one
    -- waits at its channel. The responses can be read, and there is a json codec.
    pub waiting_after-responses :
        (rs : List Response) (out : Any V)
        → AllReadable f rs
        → waiting_after (map published rs) out 0 ≡ done (length rs - 1)
    unfolding waiting_after signal
    waiting_after-responses [] out all = refl
    waiting_after-responses ((types, msg_id, body) ∷ rs) out (readable, all) =
        rw
          (
            receive-response_message f types msg_id body readable get_codec json out 0 known,
            waiting_after-full rs (json.unmarshal body out) all,
          )
          (ap done (omega arith))
