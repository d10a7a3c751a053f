-- ===== src/Websocket/Codec/Send.antt =====
-- The sending half of woody/websocket/websocket_codec.cc: `ConvertFrameToString` and
-- `ConvertMessageToFrame`.
use woody.Shared.{
  ℕ, ◌*◌, ◌%◌, ◌^◌, Bool, true, false, List, [], ◌∷◌, ◌++◌, length, get_or, take, drop, bit_or, leb,
  ◌&&◌, not, if◌then◌else◌,
}
use woody.Base.Endian.{host_to_network64, host_to_network32, network_to_host_int32}
use woody.Websocket.Frame.{
  WebsocketFrame, mask, opcode_text, opcode_binary, opcode_close, opcode_ping, opcode_pong,
}
use woody.Websocket.Parser.{truth}
use woody.Websocket.Message.{
  MessageType, none_message, text_message, binary_message, close_message, ping_message,
  pong_message,
}
use woody.Websocket.Codec.{Event, on_codec_error, is_empty}

-- What `ConvertFrameToString` returns, the string behind its reference parameter, and the calls of
-- the error callback.
pub record Converted : Type 0 where
  pub success : Bool
  pub parsed_string : List ℕ
  pub events : List Event

abbrev pub converted : List ℕ → Converted
converted s = record { success = true; parsed_string = s; events = [] }

-- `b |= x` on an unsigned char.
abbrev pub or_u8 : ℕ → ℕ → ℕ
or_u8 b x = bit_or b x % 2 ^ 8

unfoldable pub first_byte : WebsocketFrame → ℕ
first_byte frame =
    or_u8
      (or_u8 (or_u8 (or_u8 (or_u8 0 (frame.fin * 2 ^ 7)) (frame.rsv1 * 2 ^ 6)) (frame.rsv2 * 2 ^ 5))
        (frame.rsv3 * 2 ^ 4))
      frame.opcode

-- The second byte with `x` in its low bits.
unfoldable pub second_byte : WebsocketFrame → ℕ → ℕ
second_byte frame x = or_u8 (or_u8 0 (frame.mask * 2 ^ 7)) x

-- From `if (frame.GetMask())` on.
unfoldable pub end_frame : WebsocketFrame → List ℕ → List ℕ
end_frame frame s =
    (if truth frame.mask then s ++ host_to_network32 frame.masking_key else s) ++ frame.body

unfoldable pub convert_frame_to_string : WebsocketFrame → List ℕ → Converted
convert_frame_to_string frame parsed_string =
    let s = parsed_string ++ (first_byte frame ∷ []) in
    let n = host_to_network64 frame.payload_length in
    if leb frame.payload_length 125
    then converted (end_frame frame (s ++ (second_byte frame (get_or n 7 0) ∷ [])))
    else if leb frame.payload_length 0xff
    then converted (end_frame frame ((s ++ (second_byte frame 126 ∷ [])) ++ take 2 (drop 6 n)))
    else if leb frame.payload_length 0xffff_ffff
    then converted (end_frame frame ((s ++ (second_byte frame 127 ∷ [])) ++ take 8 n))
    else record { success = false; parsed_string = s; events = on_codec_error }

-- What `ConvertMessageToFrame` returns, and the frame behind its reference parameter.
pub record Framed : Type 0 where
  pub success : Bool
  pub frame : WebsocketFrame

-- Behind the `switch`: `mask` is 0, so the branch that draws a random key is never taken; the
-- four bytes that it would draw are the argument `random_bytes`.
unfoldable pub fill_frame : List ℕ → ℕ → List ℕ → Framed
fill_frame random_bytes opcode bytes =
    let mask_bit : ℕ = 0 in
    let is_masked = truth mask_bit && not (is_empty bytes) in
    let masking_key = if is_masked then network_to_host_int32 random_bytes else 0 in
    let body = if is_masked then mask bytes masking_key else bytes in
    record {
      success = true;
      frame = record {
        fin = 1;
        rsv1 = 0;
        rsv2 = 0;
        rsv3 = 0;
        opcode = opcode;
        mask = mask_bit;
        payload_length = length body;
        masking_key = masking_key;
        body = body;
      };
    }

-- The enumeration has no other value, so the `default` branch is not reached.
unfoldable pub convert_message_to_frame : List ℕ → MessageType → List ℕ → WebsocketFrame → Framed
convert_message_to_frame random_bytes none_message bytes frame = record {
  success = false;
  frame = frame;
}
convert_message_to_frame random_bytes text_message bytes frame =
    fill_frame random_bytes opcode_text bytes
convert_message_to_frame random_bytes binary_message bytes frame =
    fill_frame random_bytes opcode_binary bytes
convert_message_to_frame random_bytes close_message bytes frame =
    fill_frame random_bytes opcode_close bytes
convert_message_to_frame random_bytes ping_message bytes frame =
    fill_frame random_bytes opcode_ping bytes
convert_message_to_frame random_bytes pong_message bytes frame =
    fill_frame random_bytes opcode_pong bytes
