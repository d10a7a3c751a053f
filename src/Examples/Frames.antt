-- ===== src/Examples/Frames.antt =====
-- A text frame with the two bytes of "Hi", masked, through the parser and the codec.
use woody.Shared.{ℕ, ◌≡◌, refl, inl, true, some, ◌+◌, ◌*◌, List, [], ◌∷◌, ◌++◌, length, arith, All}
use woody.Base.Endian.{IsByte, host_to_network32}
use woody.Websocket.Frame.{WebsocketFrame, mask, mask_loop}
use woody.Websocket.Parser.{
  ParsingState, parsing_header_begin, WebsocketParser, ParseResult, construct, parse,
}
use woody.Websocket.Parser.Chunks.{resume, is_past_header}
use woody.Websocket.Parser.Split.{parse-append}
use woody.Websocket.Codec.{new_codec}
use woody.Websocket.Codec.Wire.{IsSendable, in_second_byte, wire, wire_header, key_bytes, extended}
use woody.Websocket.Codec.ReadLength.{behind}
use woody.Websocket.Codec.RoundTrip.{parse-wire}
use woody.Websocket.Codec.Assembly.{idle, receive}
use woody.Websocket.Codec.Stream.{client_frame, IsClientFrame}
use woody.Websocket.Codec.Sequences.{assemble_frames, receive-assemble_frames}
use woody.Websocket.Codec.Boxes.{no_boxes, collect_frames, receive-collect_frames}

abbrev hi : List ℕ
hi = 72 ∷ 105 ∷ []

abbrev key : ℕ
key = 0x01020304

abbrev pub parser : WebsocketParser
parser = record {
  state = parsing_header_begin;
  fin = 0;
  rsv1 = 0;
  rsv2 = 0;
  rsv3 = 0;
  opcode = 0;
  mask = 0;
  payload_length = 0;
  masking_key = 0;
  body = [];
}

abbrev pub frame : ℕ → ℕ → WebsocketFrame
frame opcode fin = client_frame opcode fin key hi

frame-IsSendable : IsSendable (frame 1 1)
unfolding mask mask_loop
frame-IsSendable = record {
  fin_bit = omega arith;
  no_rsv1 = refl;
  no_rsv2 = refl;
  no_rsv3 = refl;
  is_opcode = inl (omega arith);
  whole_control = λ h. omega arith;
  mask_bit = omega arith;
  key_fits = omega arith;
  is_length = refl;
  length_fits = omega arith;
}

frame-IsClientFrame : IsClientFrame 1 1 key hi
frame-IsClientFrame = record {
  fin_bit = omega arith;
  is_opcode = inl (omega arith);
  whole_control = λ h. omega arith;
  key_fits = omega arith;
  key_pos = λ h. absurd (omega arith);
  length_fits = omega arith;
  are_bytes = (omega arith, (omega arith, tt));
}

-- The ten bytes of the chunk: the frame, and the first two bytes of the next.
wire_size : length (wire in_second_byte (frame 1 1) ++ (129 ∷ 0 ∷ [])) ≡ 10
unfolding wire wire_header extended key_bytes host_to_network32 mask mask_loop
wire_size = refl

abbrev cut : List ℕ
cut = 129 ∷ 130 ∷ 1 ∷ 2 ∷ 3 ∷ 4 ∷ 73 ∷ []

cut-IsByte : All IsByte cut
cut-IsByte = (
  omega arith,
  (omega arith, (omega arith, (omega arith, (omega arith, (omega arith, (omega arith, tt)))))),
)

cut_past : is_past_header (parse cut 0 parser) ≡ true
unfolding parse woody.Websocket.Parser.parse_header woody.Websocket.Parser.is_first_byte_refused
    woody.Websocket.Parser.parse_second_byte woody.Websocket.Parser.parse_payload_length
    woody.Websocket.Parser.parse_masking_key woody.Websocket.Parser.end_header
    woody.Websocket.Parser.parse_body
cut_past = refl

parse-append_example : parse (cut ++ (107 ∷ [])) 0 parser ≡ resume (parse cut 0 parser) (107 ∷ [])
parse-append_example = parse-append cut (107 ∷ []) parser (omega arith) cut-IsByte refl cut_past

parse-wire_example : parse (wire in_second_byte (frame 1 1) ++ (129 ∷ 0 ∷ [])) 0 parser ≡ record {
  success = true;
  parsed_bytes = length (wire in_second_byte (frame 1 1));
  parser = behind (frame 1 1) parser;
  complete = some (record (frame 1 1) { masking_key = key });
}
parse-wire_example =
    parse-wire in_second_byte (frame 1 1) (129 ∷ 0 ∷ []) parser frame-IsSendable (omega arith)
      (omega (arith, wire_size)) (refl, refl)

-- A text message in two frames, between them a frame with the key 0 and the start of another.
abbrev disturbed : List WebsocketFrame
disturbed =
    frame 1 0 ∷ record (frame 0 1) { masking_key = 0 } ∷ frame 2 1 ∷ frame 3 0 ∷ frame 0 1 ∷ []

receive-assemble_frames_example :
    receive disturbed (new_codec parser) ≡ assemble_frames disturbed idle
receive-assemble_frames_example =
    receive-assemble_frames disturbed (new_codec parser) idle
      (
        (λ h. absurd (omega arith)),
        (
          (λ h. refl),
          ((λ h. absurd (omega arith)), ((λ h. absurd (omega arith)), ((λ h. refl), tt))),
        ),
      )
      (refl, refl, refl, refl)

-- A text message in three frames, and another one behind it.
abbrev fragments : List WebsocketFrame
fragments = frame 1 0 ∷ frame 0 0 ∷ frame 0 1 ∷ frame 1 1 ∷ []

receive-collect_frames_example :
    receive fragments (new_codec parser) ≡ collect_frames fragments no_boxes
receive-collect_frames_example =
    receive-collect_frames fragments (new_codec parser) no_boxes (refl, refl, refl, refl)

-- A generator.
abbrev srand : ℕ → ℕ
srand seed = seed + 12345

abbrev rand : ℕ → ℕ × ℕ
rand g = (g * 7, g + 1)
