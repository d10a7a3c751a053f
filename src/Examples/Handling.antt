-- ===== src/Examples/Handling.antt =====
-- The handler's loop on a buffer that holds whole frames, too many bytes, or too few.
use woody.Shared.{ℕ, ◌<◌, ◌≡◌, ◌≢◌, refl, inl, true, List, [], ◌∷◌, ◌++◌, length, arith, some}
use woody.Base.Endian.{host_to_network32}
use woody.Net.Loop.{Outcome, finished, overrun, stuck}
use woody.Net.Loop.Laws.{on_data-ne-stuck}
use woody.Websocket.Frame.{mask, mask_loop}
use woody.Websocket.Message.{text_message}
use woody.Websocket.Parser.{parsing_header_begin, read_first_byte, parse}
use woody.Websocket.Codec.{WebsocketCodec, new_codec}
use woody.Websocket.Codec.Wire.{
  in_second_byte, wire, wire_header, sent_form, sent_wire, key_bytes, extended,
}
use woody.Websocket.Codec.ReadLength.{behind}
use woody.Websocket.Codec.Assembly.{idle}
use woody.Websocket.Handler.{force_close, send, feed, handler_on_data, send_websocket_message}
use woody.Websocket.Codec.Assembler.{ClientFrame, IsGood}
use woody.Websocket.Handler.Delivery.{stream}
use woody.Websocket.Handler.Overrun.{handler_on_data_overrun}
use woody.Websocket.Handler.Short.{handler_on_data_one_byte, handler_on_data_cut}
use woody.Websocket.Handler.Sending.{server_frame, send-parse}
use woody.Net.Loop
use woody.Examples.Queue.{queue}
use woody.Examples.Frames.{parser, frame}

abbrev pub codec : WebsocketCodec
codec = new_codec parser

abbrev client_text : List ℕ → ClientFrame
client_text bytes = record {
  opcode = 1;
  fin = 1;
  key = 0x01020304;
  bytes = bytes;
  form = in_second_byte;
}

client_text-IsGood : (a b : ℕ) → a < 256 → b < 256 → IsGood (client_text (a ∷ b ∷ []))
client_text-IsGood a b ha hb = (
  record {
    fin_bit = omega arith;
    is_opcode = inl (omega arith);
    whole_control = λ h. omega arith;
    key_fits = omega arith;
    key_pos = λ h. absurd (omega arith);
    length_fits = omega arith;
    are_bytes = (ha, (hb, tt));
  },
  (λ h. refl),
  omega arith,
)

abbrev pub hi : ClientFrame
hi = client_text (72 ∷ 105 ∷ [])

abbrev pub two : List ClientFrame
two = hi ∷ hi ∷ []

abbrev three : List ClientFrame
three = hi ∷ hi ∷ hi ∷ []

pub two_size : length (stream two) ≡ 16
unfolding stream wire wire_header extended key_bytes host_to_network32 mask mask_loop
two_size = refl

pub one_size : length (stream (hi ∷ [])) ≡ 8
unfolding stream wire wire_header extended key_bytes host_to_network32 mask mask_loop
one_size = refl

three_size : length (stream three) ≡ 24
unfolding stream wire wire_header extended key_bytes host_to_network32 mask mask_loop
three_size = refl

pub hi-IsGood : IsGood hi
hi-IsGood = client_text-IsGood 72 105 (omega arith) (omega arith)

handler_on_data_overrun_example : handler_on_data queue (stream three, 8) codec ≡ overrun
handler_on_data_overrun_example =
    handler_on_data_overrun queue hi two (stream three, 8) codec idle refl hi-IsGood
      (omega (arith, three_size)) (omega (arith, two_size)) (refl, refl) (refl, refl, refl, refl)

abbrev pub broken : List ℕ
broken = 255 ∷ 1 ∷ 2 ∷ []

on_data-ne-stuck_example : Loop.on_data queue feed (broken, 8) codec ≢ stuck
on_data-ne-stuck_example = on_data-ne-stuck queue feed (broken, 8) codec

handler_on_data_one_byte_example :
    handler_on_data queue (129 ∷ [], 8) codec
    ≡ finished
        ([], 8)
        (record codec { parser = read_first_byte 129 codec.parser })
        (force_close ∷ [])
handler_on_data_one_byte_example =
    handler_on_data_one_byte queue 129 (129 ∷ [], 8) codec refl (refl, refl)

abbrev no_bytes : List ℕ
no_bytes = []

handler_on_data_cut_example :
    (c' : WebsocketCodec) × (handler_on_data queue (129 ∷ 130 ∷ 1 ∷ 2 ∷ [], 8) codec
      ≡ finished ([], 8) c' [])
    × (no_bytes ≡ [])
    × ((c'.parser.state ≡ parsing_header_begin) × (c'.parser.body ≡ []))
handler_on_data_cut_example =
    handler_on_data_cut queue 129 130 (1 ∷ 2 ∷ []) (129 ∷ 130 ∷ 1 ∷ 2 ∷ [], 8) codec refl
      (record {
        first_byte = omega arith;
        no_extension = refl;
        data_opcode = omega arith;
        second_byte = omega arith;
        masked = omega arith;
        short_form = omega arith;
        cut = omega arith;
      })
      (refl, refl)

server_size : length (sent_wire (server_frame text_message (72 ∷ 105 ∷ [])) ++ (129 ∷ [])) ≡ 5
unfolding wire wire_header sent_form extended key_bytes
server_size = refl

send-parse_example :
    (s : List ℕ) × (send_websocket_message [] (frame 1 1) text_message (72 ∷ 105 ∷ [])
      ≡ record { success = true; actions = send s ∷ [] })
    × (parse (s ++ (129 ∷ [])) 0 parser ≡ record {
      success = true;
      parsed_bytes = length s;
      parser = behind (server_frame text_message (72 ∷ 105 ∷ [])) parser;
      complete = some (record (server_frame text_message (72 ∷ 105 ∷ [])) { masking_key = 0 });
    })
send-parse_example =
    send-parse [] (frame 1 1) text_message (72 ∷ 105 ∷ []) (129 ∷ []) parser (λ h. absurd cc)
      (omega arith) (omega (arith, server_size)) (refl, refl)
