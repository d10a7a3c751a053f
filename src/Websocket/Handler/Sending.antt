-- ===== src/Websocket/Handler/Sending.antt =====
-- `SendWebsocketMessage` against the parser at the other end.
use woody.Shared.{
  ℕ, ◌^◌, ◌≤◌, ◌<◌, ◌≡◌, ◌≢◌, refl, true, false, some, List, [], ◌∷◌, ◌++◌, length, All, arith, ◌+◌,
}
use mathlib.Core.Path.{subst}
use woody.Base.Endian.{IsByte}
use woody.Websocket.Frame.{WebsocketFrame}
use woody.Websocket.Message.{
  MessageType, none_message, text_message, binary_message, close_message, ping_message,
  pong_message,
}
use woody.Websocket.Parser.{WebsocketParser, parse}
use woody.Websocket.Parser.Invariant.{IsFresh}
use woody.Websocket.Codec.Send.{
  Converted, fill_frame, convert_message_to_frame, convert_frame_to_string,
}
use woody.Websocket.Codec.Wire.{
  IsSendable, IsOpcode, sent_form, sent_form-Fits, sent_wire, convert_frame_to_string_lem,
}
use woody.Websocket.Codec.ReadLength.{behind}
use woody.Websocket.Codec.RoundTrip.{parse-wire}
use woody.Websocket.Codec.Octets.{convert_frame_to_string-IsByte, header_size, length-wire_unmasked}
use woody.Websocket.Handler.{Sent, send, force_close, send_websocket_message}

-- The opcode of a message's only frame.
abbrev pub type_opcode : MessageType → ℕ
type_opcode none_message = 0
type_opcode text_message = 1
type_opcode binary_message = 2
type_opcode close_message = 8
type_opcode ping_message = 9
type_opcode pong_message = 10

-- The one frame of a message: final, not masked.
abbrev pub server_frame : MessageType → List ℕ → WebsocketFrame
server_frame type bytes = record {
  fin = 1;
  rsv1 = 0;
  rsv2 = 0;
  rsv3 = 0;
  opcode = type_opcode type;
  mask = 0;
  payload_length = length bytes;
  masking_key = 0;
  body = bytes;
}

framed :
    (random_bytes : List ℕ) (frame : WebsocketFrame) (type : MessageType) (bytes : List ℕ)
    → type ≢ none_message
    → convert_message_to_frame random_bytes type bytes frame
      ≡ record { success = true; frame = server_frame type bytes }
unfolding convert_message_to_frame fill_frame
framed random_bytes frame none_message bytes h = absurd (h refl)
framed random_bytes frame text_message bytes h = refl
framed random_bytes frame binary_message bytes h = refl
framed random_bytes frame close_message bytes h = refl
framed random_bytes frame ping_message bytes h = refl
framed random_bytes frame pong_message bytes h = refl

type_opcode-IsOpcode : (type : MessageType) → IsOpcode (type_opcode type)
type_opcode-IsOpcode none_message = omega arith
type_opcode-IsOpcode text_message = omega arith
type_opcode-IsOpcode binary_message = omega arith
type_opcode-IsOpcode close_message = omega arith
type_opcode-IsOpcode ping_message = omega arith
type_opcode-IsOpcode pong_message = omega arith

pub server_frame-IsSendable :
    (type : MessageType) (bytes : List ℕ)
    → length bytes ≤ 0xffff_ffff
    → IsSendable (server_frame type bytes)
server_frame-IsSendable type bytes h = record {
  fin_bit = omega arith;
  no_rsv1 = refl;
  no_rsv2 = refl;
  no_rsv3 = refl;
  is_opcode = type_opcode-IsOpcode type;
  whole_control = λ _. refl;
  mask_bit = omega arith;
  key_fits = omega arith;
  is_length = refl;
  length_fits = h;
}

pub send-wire :
    (random_bytes : List ℕ) (frame : WebsocketFrame) (type : MessageType) (bytes : List ℕ)
    → type ≢ none_message
    → length bytes ≤ 0xffff_ffff
    → send_websocket_message random_bytes frame type bytes
      ≡ record { success = true; actions = send (sent_wire (server_frame type bytes)) ∷ [] }
unfolding send_websocket_message
send-wire random_bytes frame type bytes h fits =
    rw
      (
        framed random_bytes frame type bytes h,
        convert_frame_to_string_lem (server_frame type bytes) []
            (server_frame-IsSendable type bytes fits),
      )
      refl

-- A message of any type but none, of at most 0xffffffff bytes, is sent as one string. A parser
-- that waits for a header and is given that string, with anything behind it that fits `size_t`,
-- takes exactly the string and completes a final frame with the type's opcode, not masked, and
-- with the message's bytes as its body; the key that it reports is the one that it held.
pub send-parse :
    (random_bytes : List ℕ) (frame : WebsocketFrame) (type : MessageType) (bytes rest : List ℕ)
    (p : WebsocketParser)
    → type ≢ none_message
    → length bytes ≤ 0xffff_ffff
    → length (sent_wire (server_frame type bytes) ++ rest) < 2 ^ 64
    → IsFresh p
    → (s : List ℕ) × (send_websocket_message random_bytes frame type bytes
        ≡ record { success = true; actions = send s ∷ [] })
      × (parse (s ++ rest) 0 p ≡ record {
        success = true;
        parsed_bytes = length s;
        parser = behind (server_frame type bytes) p;
        complete = some (record (server_frame type bytes) { masking_key = p.masking_key });
      })
send-parse random_bytes frame type bytes rest p h fits whole fresh = (
  sent_wire (server_frame type bytes),
  send-wire random_bytes frame type bytes h fits,
  parse-wire (sent_form (length bytes)) (server_frame type bytes) rest p
      (server_frame-IsSendable type bytes fits) (sent_form-Fits (length bytes) fits) whole fresh,
)

-- A message with more than 0xffffffff bytes is not sent: with no type nothing happens, and with
-- any other type the connection is closed.
pub send_refused :
    (random_bytes : List ℕ) (frame : WebsocketFrame) (type : MessageType) (bytes : List ℕ)
    → 0xffff_ffff < length bytes
    → type ≢ none_message
    → (send_websocket_message random_bytes frame none_message bytes
        ≡ record { success = false; actions = [] })
      × (send_websocket_message random_bytes frame type bytes
          ≡ record { success = false; actions = force_close ∷ [] })
unfolding send_websocket_message convert_message_to_frame convert_frame_to_string
send_refused random_bytes frame type bytes long h =
    (ground arith, rw (framed random_bytes frame type bytes h) (ground arith))

-- What is sent for a message.
pub record IsSent (bytes : List ℕ) (r : Sent) : Type 0 where
  pub sent : List ℕ
  pub sends : r ≡ record { success = true; actions = send sent ∷ [] }
  pub are_bytes : All IsByte sent
  pub size : length sent ≡ header_size (length bytes) + length bytes

-- A message of any type but none, of at most 0xffffffff bytes, is sent as one string of bytes, which
-- is longer than the message by two bytes up to a length of 125, by four up to 255, and else by ten.
pub send_websocket_message-IsSent :
    (random_bytes : List ℕ) (frame : WebsocketFrame) (type : MessageType) (bytes : List ℕ)
    → type ≢ none_message
    → length bytes ≤ 0xffff_ffff
    → All IsByte bytes
    → IsSent bytes (send_websocket_message random_bytes frame type bytes)
send_websocket_message-IsSent random_bytes frame type bytes h fits are_bytes =
    let f = server_frame type bytes in
    record {
      sent = sent_wire f;
      sends = send-wire random_bytes frame type bytes h fits;
      are_bytes =
          subst (λ (c : Converted). All IsByte c.parsed_string)
            (convert_frame_to_string_lem f [] (server_frame-IsSendable type bytes fits))
            (convert_frame_to_string-IsByte f [] are_bytes tt);
      size = length-wire_unmasked f refl;
    }
