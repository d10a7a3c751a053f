-- ===== src/Websocket/Application.antt =====
-- The application's side of woody/websocket/websocket_handler.h: the callbacks that it sets, and the
-- handler's methods that they call. A callback answers by the message alone.
pub mod ReadBack
use woody.Shared.{
  ℕ, zero, suc, ◌^◌, ◌≤◌, ◌<◌, ◌≡◌, ◌≢◌, refl, sym, ap, ap₂, ◌∙◌, Option, none, some, List, [], ◌∷◌,
  ◌++◌, append_assoc, map, length, drop, drop_append, All, All-parts, length-append, arith,
}
use woody.Net.Buffer.{Buffer}
use woody.Net.Loop.Reads.{Served}
use woody.Websocket.Frame.{WebsocketFrame}
use woody.Websocket.Message.{WebsocketMessage, text_message}
use woody.Websocket.Parser.{WebsocketParser, ParseResult, parse}
use woody.Websocket.Parser.Invariant.{IsFresh}
use woody.Websocket.Codec.{
  Event, on_text, on_binary, on_close, on_ping, on_pong, on_error, WebsocketCodec,
}
use woody.Websocket.Codec.Wire.{wire}
use woody.Websocket.Codec.RoundTrip.{parse-wire}
use woody.Websocket.Codec.Boxes.{Boxes, Stores}
use woody.Websocket.Codec.Assembler.{boxes}
use woody.Websocket.Handler.{
  Action, call_text, call_binary, call_close, call_ping, call_pong, call_close_callback_with_this,
  call_close_callback, send, force_close, handle_event, send_text_message,
}
use woody.Websocket.Handler.Delivery.{assemble_stream}
use woody.Websocket.Handler.Reads.{handler_reads, IsServed}
use woody.Websocket.Handler.Sending.{server_frame, send-wire, server_frame-IsSendable}
use woody.Websocket.Handler.Session.{Arrival, Holds, all_frames, all_reads, session-IsCollected}

-- What a callback calls: `SendTextMessage` and `ForceClose`.
pub data Call : Type 0 where
  call_send_text : WebsocketMessage → Call
  call_force_close : Call

-- `SetTextMessageCallback` and its kin.
pub record Callbacks : Type 0 where
  pub text_message_callback : WebsocketMessage → List Call
  pub binary_message_callback : WebsocketMessage → List Call
  pub close_message_callback : WebsocketMessage → List Call
  pub ping_message_callback : WebsocketMessage → List Call
  pub pong_message_callback : WebsocketMessage → List Call

module _ (random_bytes : List ℕ) (frame : WebsocketFrame) where
  unfoldable pub run_call : Call → List Action
  run_call (call_send_text message) = (send_text_message random_bytes frame message).actions
  run_call call_force_close = force_close ∷ []

  unfoldable pub run_calls : List Call → List Action
  run_calls [] = []
  run_calls (k ∷ ks) = run_call k ++ run_calls ks

  module _ (cb : Callbacks) where
    -- `OnTextMessage` and its kin call the application's callback; the other actions are the
    -- handler's own.
    unfoldable pub run_callback : Action → List Action
    run_callback (call_text message) = run_calls (cb.text_message_callback message)
    run_callback (call_binary message) = run_calls (cb.binary_message_callback message)
    run_callback (call_close message) = run_calls (cb.close_message_callback message)
    run_callback (call_ping message) = run_calls (cb.ping_message_callback message)
    run_callback (call_pong message) = run_calls (cb.pong_message_callback message)
    run_callback call_close_callback_with_this = call_close_callback_with_this ∷ []
    run_callback call_close_callback = call_close_callback ∷ []
    run_callback (send bytes) = send bytes ∷ []
    run_callback force_close = force_close ∷ []

    unfoldable pub run_callbacks : List Action → List Action
    run_callbacks [] = []
    run_callbacks (a ∷ as') = run_callback a ++ run_callbacks as'
