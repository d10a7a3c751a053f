-- ===== src/Websocket/Codec/Frames.antt =====
-- What every frame handler leaves alone.
use woody.Shared.{ℕ, ◌≡◌, refl, List, arith}
use woody.Websocket.Frame.{WebsocketFrame}
use woody.Websocket.Message.{
  MessageType, none_message, text_message, binary_message, close_message, ping_message,
  pong_message,
}
use woody.Websocket.Codec.{
  WebsocketCodec, Handled, handle_frame_body, append_text, append_binary, continue_message,
  end_continuation, on_continuation_frame, on_text_frame, on_binary_frame, on_close_frame,
  on_ping_frame, on_pong_frame, on_parsed_frame,
}

-- A handler's result keeps the parser and the masking mode.
abbrev pub Keeps : WebsocketCodec → Handled → Type 0
Keeps c h = (h.codec.parser ≡ c.parser) × (h.codec.is_expected_masking ≡ c.is_expected_masking)

append_text-Keeps :
    (f : WebsocketFrame) (body : List ℕ) (c : WebsocketCodec) → Keeps c (append_text f body c)
unfolding append_text
append_text-Keeps f body c = ground arith

append_binary-Keeps :
    (f : WebsocketFrame) (body : List ℕ) (c : WebsocketCodec) → Keeps c (append_binary f body c)
unfolding append_binary
append_binary-Keeps f body c = ground arith

continue_message-Keeps :
    (t : MessageType) (f : WebsocketFrame) (body : List ℕ) (c : WebsocketCodec)
    → Keeps c (end_continuation (continue_message t f body c))
continue_message-Keeps none_message f body c = (refl, refl)
continue_message-Keeps text_message f body c = ground (arith, append_text-Keeps f body c)
continue_message-Keeps binary_message f body c = ground (arith, append_binary-Keeps f body c)
continue_message-Keeps close_message f body c = (refl, refl)
continue_message-Keeps ping_message f body c = (refl, refl)
continue_message-Keeps pong_message f body c = (refl, refl)

on_continuation_frame-Keeps :
    (f : WebsocketFrame) (c : WebsocketCodec) → Keeps c (on_continuation_frame f c)
unfolding on_continuation_frame
on_continuation_frame-Keeps f c =
    ground
      (arith, continue_message-Keeps c.cur_message_type f (handle_frame_body f c).handled_body c)

on_text_frame-Keeps : (f : WebsocketFrame) (c : WebsocketCodec) → Keeps c (on_text_frame f c)
unfolding on_text_frame
on_text_frame-Keeps f c = ground (
  arith,
  append_text-Keeps f (handle_frame_body f c).handled_body
      (record c { cur_message_type = text_message }),
)

on_binary_frame-Keeps : (f : WebsocketFrame) (c : WebsocketCodec) → Keeps c (on_binary_frame f c)
unfolding on_binary_frame
on_binary_frame-Keeps f c = ground (
  arith,
  append_binary-Keeps f (handle_frame_body f c).handled_body
      (record c { cur_message_type = binary_message }),
)

on_control-Keeps :
    (f : WebsocketFrame) (c : WebsocketCodec)
    → Keeps c (on_close_frame f c) × Keeps c (on_ping_frame f c) × Keeps c (on_pong_frame f c)
unfolding on_close_frame on_ping_frame on_pong_frame
on_control-Keeps f c = ground arith

-- Handling a frame, whatever it is, changes neither the parser nor whether masking is expected.
pub on_parsed_frame-Keeps :
    (f : WebsocketFrame) (c : WebsocketCodec) → Keeps c (on_parsed_frame f c)
unfolding on_parsed_frame
on_parsed_frame-Keeps f c = ground (
  arith,
  on_continuation_frame-Keeps f c,
  on_text_frame-Keeps f c,
  on_binary_frame-Keeps f c,
  on_control-Keeps f c,
)
