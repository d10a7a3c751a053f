-- ===== src/Examples/Connecting.antt =====
-- Several reads of a websocket handler.
use woody.Shared.{ℕ, ◌≡◌, refl, List, [], ◌∷◌, ◌++◌, take, drop, All, arith}
use woody.Websocket.Frame.{mask, mask_loop}
use woody.Websocket.Parser.{read_first_byte}
use woody.Websocket.Codec.{WebsocketCodec, on_parsed_frame}
use woody.Websocket.Codec.Wire.{in_second_byte, wire_header}
use woody.Websocket.Codec.Assembly.{idle}
use woody.Websocket.Codec.Stream.{client_frame}
use woody.Websocket.Codec.Assembler.{protocol}
use woody.Websocket.Codec.Refusals.{Decides, is_turned_down}
use woody.Websocket.Handler.{force_close, handler_on_data}
use woody.Websocket.Handler.Delivery.{stream, assemble_stream}
use woody.Websocket.Handler.Safety.{IsSafe}
use woody.Websocket.Handler.Reachable.{
  Reachable, made, behind_read, read, Reachable-IsSafe, Reachable-Decides,
}
use woody.Websocket.Handler.Reads.{handler_reads, IsServed}
use woody.Websocket.Handler.Reads.Pieces.{concat}
use woody.Websocket.Handler.Session.{
  Arrival, whole, cut, Holds, all_frames, all_reads, session-IsServed,
}
use woody.Websocket.Handler.Short.{handler_on_data_one_byte}
use woody.Examples.Queue.{Queue, queue}
use woody.Examples.Frames.{parser, frame}
use woody.Examples.Handling.{codec, hi, hi-IsGood, two, two_size, one_size, broken}

abbrev pub masked : List ℕ
masked = mask (72 ∷ 105 ∷ []) 0x01020304

abbrev pub first_read : Queue
first_read =
    (wire_header in_second_byte (client_frame 1 1 0x01020304 (72 ∷ 105 ∷ [])) ++ take 1 masked, 8)

abbrev pub second_read : Queue
second_read = (drop 1 masked, 8)

pub masked_parts : masked ≡ take 1 masked ++ concat (second_read.0 ∷ [])
unfolding mask mask_loop concat
masked_parts = refl

pub second_full : second_read.0 ≡ [] → ⊥
unfolding mask mask_loop
second_full h = absurd cc

abbrev pub arrivals : List (Arrival queue)
arrivals = whole two (stream two, 8) ∷ cut hi (take 1 masked) first_read second_read [] ∷ []

pub arrivals-Holds : All (Holds protocol queue) arrivals
arrivals-Holds = (
  (refl, (hi-IsGood, (hi-IsGood, tt)), omega (arith, two_size), omega (arith, one_size)),
  ((hi-IsGood, refl, masked_parts, (second_full, tt)), tt),
)

session-IsServed_example :
    IsServed protocol
      (assemble_stream protocol (all_frames queue arrivals) idle)
      (handler_reads queue (all_reads queue arrivals) codec)
session-IsServed_example =
    session-IsServed queue arrivals codec idle arrivals-Holds (refl, refl) (refl, refl, refl, refl)

-- The codec behind a read of one byte.
abbrev behind_byte : WebsocketCodec
behind_byte = record codec { parser = read_first_byte 129 codec.parser }

behind_byte-Reachable : Reachable queue behind_byte
behind_byte-Reachable = behind_read (made parser) (
    read (129 ∷ [], 8) ([], 8) (force_close ∷ []) (omega arith) (omega arith, tt)
      (handler_on_data_one_byte queue 129 (129 ∷ [], 8) codec refl (refl, refl)))

Reachable-IsSafe_example : IsSafe queue (handler_on_data queue (broken, 8) behind_byte)
Reachable-IsSafe_example =
    Reachable-IsSafe queue behind_byte-Reachable (broken, 8) (omega arith)
      (omega arith, (omega arith, (omega arith, tt)))

Reachable-Decides_example :
    Decides
      (is_turned_down (frame 0 1) behind_byte.cur_message_type)
      behind_byte
      (on_parsed_frame (frame 0 1) behind_byte)
Reachable-Decides_example = Reachable-Decides queue behind_byte-Reachable (frame 0 1)
