-- ===== src/Examples/Boxed.antt =====
-- Frames of a client that the assembler of messages has no place for, among others.
use woody.Shared.{ℕ, ◌≡◌, refl, inl, List, [], ◌∷◌, length, take, All, arith}
use woody.Base.Endian.{host_to_network32}
use woody.Websocket.Frame.{mask, mask_loop}
use woody.Websocket.Codec.Wire.{in_two_bytes, wire, wire_header, key_bytes, extended}
use woody.Websocket.Codec.Stream.{client_frame-IsSendable}
use woody.Websocket.Codec.Boxes.{no_boxes}
use woody.Websocket.Codec.Assembler.{ClientFrame, IsMasked, boxes}
use woody.Websocket.Handler.Delivery.{stream, assemble_stream}
use woody.Websocket.Handler.Reads.{handler_reads, IsServed}
use woody.Websocket.Handler.Session.{
  Arrival, whole, cut, Holds, all_frames, all_reads, session-IsCollected,
}
use woody.Examples.Queue.{queue}
use woody.Examples.Handling.{codec, hi, hi-IsGood, two, two_size, one_size}
use woody.Examples.Connecting.{masked, first_read, second_read, masked_parts, second_full}

-- A continuation with the key 0 that is not final, and that has its length in two bytes.
abbrev odd : ClientFrame
odd = record { opcode = 0; fin = 0; key = 0; bytes = 72 ∷ 105 ∷ []; form = in_two_bytes }

odd-IsMasked : IsMasked odd
unfolding mask mask_loop
odd-IsMasked = (
  record {
    fin_bit = omega arith;
    no_rsv1 = refl;
    no_rsv2 = refl;
    no_rsv3 = refl;
    is_opcode = inl (omega arith);
    whole_control = λ h. absurd (omega arith);
    mask_bit = omega arith;
    key_fits = omega arith;
    is_length = refl;
    length_fits = omega arith;
  },
  (omega arith, (omega arith, tt)),
  omega arith,
)

odd_size : length (stream (odd ∷ [])) ≡ 10
unfolding stream wire wire_header extended key_bytes host_to_network32
    woody.Base.Endian.host_to_network16 mask mask_loop
odd_size = refl

hi-IsMasked : IsMasked hi
hi-IsMasked = (
  client_frame-IsSendable hi.opcode hi.fin hi.key hi.bytes hi-IsGood.0,
  (omega arith, (omega arith, tt)),
  omega arith,
)

abbrev pub any_arrivals : List (Arrival queue)
any_arrivals =
    whole two (stream two, 8)
    ∷ whole (odd ∷ []) (stream (odd ∷ []), 8)
    ∷ cut hi (take 1 masked) first_read second_read []
    ∷ []

abbrev pub odd_read : List ℕ
odd_read = stream (odd ∷ [])

pub any_arrivals-Holds : All (Holds boxes queue) any_arrivals
any_arrivals-Holds = (
  (refl, (hi-IsMasked, (hi-IsMasked, tt)), omega (arith, two_size), omega (arith, one_size)),
  (
    (refl, (odd-IsMasked, tt), omega (arith, odd_size), unfold stream in omega arith),
    ((hi-IsMasked, refl, masked_parts, (second_full, tt)), tt),
  ),
)

session-IsCollected_example :
    IsServed boxes
      (assemble_stream boxes (all_frames queue any_arrivals) no_boxes)
      (handler_reads queue (all_reads queue any_arrivals) codec)
session-IsCollected_example =
    session-IsCollected queue any_arrivals codec no_boxes any_arrivals-Holds (refl, refl)
      (refl, refl, refl, refl)
