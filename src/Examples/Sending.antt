-- ===== src/Examples/Sending.antt =====
-- What is sent, an unmasked frame that comes in, and a trimmed string.
use woody.Shared.{ℕ, ◌≡◌, refl, inl, List, [], ◌∷◌, ◌++◌, length, All, arith}
use woody.Base.Endian.{IsByte}
use woody.Websocket.Frame.{WebsocketFrame}
use woody.Websocket.Message.{text_message}
use woody.Websocket.Codec.{WebsocketCodec, new_codec, on_data}
use woody.Websocket.Codec.Send.{convert_frame_to_string}
use woody.Websocket.Codec.Wire.{IsSendable, in_two_bytes, wire, wire_header, key_bytes, extended}
use woody.Websocket.Codec.ReadLength.{reported_key}
use woody.Websocket.Codec.Assembly.{Represents, idle}
use woody.Websocket.Codec.Stream.{IsReceived}
use woody.Websocket.Codec.Octets.{convert_frame_to_string-IsByte}
use woody.Websocket.Codec.Unmasked.{by_key, on_data-reported_key}
use woody.Websocket.Handler.{send_websocket_message}
use woody.Websocket.Handler.Sending.{IsSent, server_frame, send_websocket_message-IsSent}
use woody.Examples.Frames.{parser, frame}

abbrev hello : List ℕ
hello = 72 ∷ 105 ∷ []

hello-IsByte : All IsByte hello
hello-IsByte = (omega arith, (omega arith, tt))

-- An unmasked text frame, by a codec that holds the key of an earlier frame.
abbrev unmasked : WebsocketFrame
unmasked = server_frame text_message hello

abbrev keyed : WebsocketCodec
keyed = new_codec (record parser { masking_key = 0x01020304 })

unmasked-IsSendable : IsSendable unmasked
unmasked-IsSendable = record {
  fin_bit = omega arith;
  no_rsv1 = refl;
  no_rsv2 = refl;
  no_rsv3 = refl;
  is_opcode = inl (omega arith);
  whole_control = λ h. refl;
  mask_bit = omega arith;
  key_fits = omega arith;
  is_length = refl;
  length_fits = omega arith;
}

unmasked_size : length (wire in_two_bytes unmasked ++ []) ≡ 6
unfolding wire wire_header extended key_bytes woody.Base.Endian.host_to_network16
unmasked_size = refl

on_data-reported_key_example :
    IsReceived Represents
      (wire in_two_bytes unmasked)
      (by_key (reported_key unmasked keyed.parser) unmasked idle)
      (on_data (wire in_two_bytes unmasked ++ []) 0 keyed)
on_data-reported_key_example =
    on_data-reported_key in_two_bytes unmasked [] keyed idle unmasked-IsSendable (omega arith)
      (λ h. refl) (λ h. absurd cc) (omega (arith, unmasked_size)) (refl, refl)
      (refl, refl, refl, refl)

-- A frame whose length field is not that of its body.
abbrev odd_frame : WebsocketFrame
odd_frame = record unmasked { payload_length = 70000; rsv1 = 1; opcode = 300 }

convert_frame_to_string-IsByte_example :
    All IsByte (convert_frame_to_string odd_frame (1 ∷ [])).parsed_string
convert_frame_to_string-IsByte_example =
    convert_frame_to_string-IsByte odd_frame (1 ∷ []) hello-IsByte (omega arith, tt)

send_websocket_message-IsSent_example :
    IsSent hello (send_websocket_message [] (frame 1 1) text_message hello)
send_websocket_message-IsSent_example =
    send_websocket_message-IsSent [] (frame 1 1) text_message hello (λ h. absurd cc) (omega arith)
      hello-IsByte
