-- ===== src/Websocket/Handler/Overrun.antt =====
-- Frames behind the first that do not fit in front of an emptied buffer.
use woody.Shared.{
  ℕ, zero, suc, ◌^◌, ◌≤◌, ◌<◌, ◌≡◌, refl, ap, List, [], ◌∷◌, length, length-append, arith,
}
use woody.Net.Buffer.{Buffer}
use woody.Net.Loop.{overrun, loop, on_data}
use woody.Net.Loop.Rounds.{loop_overrun}
use woody.Websocket.Parser.Invariant.{IsFresh}
use woody.Websocket.Codec.{Event, WebsocketCodec}
use woody.Websocket.Codec
use woody.Websocket.Codec.Assembly.{Assembly, Represents, assemble}
use woody.Websocket.Codec.Stream.{IsReceived}
use woody.Websocket.Codec.Assembler.{ClientFrame, IsGood, protocol, on_data-IsReceived}
use woody.Websocket.Handler.{feed, handler_on_data}
use woody.Websocket.Handler.Delivery.{encode, stream, encode_pos, left_over, taken, not_empty}

module _ (m : Buffer) where
  open m use {Buf, readable, cheap_prepend}

  -- A buffer whose length fits `size_t` holds the frames of a client, of which the first has a key
  -- that is not zero and is no continuation in the middle of a message. If the frames behind the
  -- first do not fit in front of an emptied buffer, and the codec waits for a header and stands
  -- where the abstract assembler stands, then the assertion in `prepend` fails.
  pub handler_on_data_overrun :
      (x : ClientFrame) (xs : List ClientFrame) (b : Buf) (c : WebsocketCodec) (s : Assembly)
      → readable b ≡ stream (x ∷ xs)
      → IsGood x
      → length (stream (x ∷ xs)) < 2 ^ 64
      → cheap_prepend < length (stream xs)
      → IsFresh c.parser
      → Represents c s
      → handler_on_data m b c ≡ overrun
  unfolding handler_on_data on_data stream feed
  handler_on_data_overrun x xs b c s holds good fits over fresh r =
      go (length (readable b))
        (omega (arith, ap length holds, encode_pos x, length-append (encode x) (stream xs)))
    where
      received :
          IsReceived Represents
            (encode x)
            (assemble x.opcode x.fin x.bytes s)
            (Codec.on_data (readable b) 0 c)
      received = rw holds (on_data-IsReceived protocol x (stream xs) c s good fits fresh r)

      go : (fuel : ℕ) → 1 ≤ fuel → loop m feed fuel b c [] ≡ overrun
      go zero h = absurd (omega arith)
      go (suc fuel) h =
          loop_overrun m feed fuel b c [] (not_empty protocol m x xs fuel b c s [] holds received)
            refl received.succeeds
            (omega (arith, taken protocol m x xs fuel b c s [] holds received, encode_pos x))
            (omega (
              arith,
              taken protocol m x xs fuel b c s [] holds received,
              ap length holds,
              length-append (encode x) (stream xs),
            ))
            (rw (left_over protocol m x xs fuel b c s [] holds received) over)
