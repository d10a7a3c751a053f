-- ===== src/Websocket/Handler.antt =====
-- woody/websocket/websocket_handler.h and websocket_handler.cc, but for the upgrade: the reading
-- loop, the callbacks and sending. What the handler does to its connection and the application's
-- callbacks that it calls are a list of actions, in order. `conn_` is set before any of this
-- runs, by `SetCallback`, and the application has set its message callbacks.
pub mod Delivery
pub mod Overrun
pub mod Safety
pub mod Sending
pub mod Short
pub mod Reads
pub mod Reachable
pub mod Session
use woody.Shared.{ℕ, Bool, true, false, not, List, [], ◌∷◌, ◌++◌, map, if◌then◌else◌}
use woody.Net.Buffer.{Buffer}
use woody.Net.Loop.{Fed, Outcome, on_data}
use woody.Websocket.Frame.{WebsocketFrame}
use woody.Websocket.Message.{MessageType, text_message, WebsocketMessage}
use woody.Websocket.Codec.{
  Event, on_text, on_binary, on_close, on_ping, on_pong, on_error, WebsocketCodec,
}
use woody.Websocket.Codec
use woody.Websocket.Codec.Send.{convert_message_to_frame, convert_frame_to_string}

pub data Action : Type 0 where
  call_text : WebsocketMessage → Action
  call_binary : WebsocketMessage → Action
  call_close : WebsocketMessage → Action
  call_ping : WebsocketMessage → Action
  call_pong : WebsocketMessage → Action
  call_close_callback_with_this : Action
  call_close_callback : Action
  send : List ℕ → Action
  force_close : Action

-- The callbacks that `SetCallback` registers: `OnTextMessage` and its kin call the application's,
-- and `HandleError` calls `ForceClose`.
abbrev pub handle_event : Event → Action
handle_event (on_text m) = call_text m
handle_event (on_binary m) = call_binary m
handle_event (on_close m) = call_close m
handle_event (on_ping m) = call_ping m
handle_event (on_pong m) = call_pong m
handle_event on_error = force_close

-- `size_t parsed_bytes = 0; ws_codec_.OnData(data, parsed_bytes)`, inside the loop.
unfoldable pub feed : List ℕ → WebsocketCodec → Fed WebsocketCodec Action
feed bytes c =
    let d = Codec.on_data bytes 0 c in
    record {
      success = d.success;
      parsed_bytes = d.parsed_bytes;
      codec = d.codec;
      events = map handle_event d.events;
    }

-- `WebsocketHandler::OnData`
unfoldable pub handler_on_data :
    (m : Buffer) → m.Buf → WebsocketCodec → Outcome m.Buf WebsocketCodec Action
handler_on_data m b c = on_data m feed b c

-- `WebsocketHandler::OnClose`, by whether the two callbacks are set.
unfoldable pub handler_on_close : Bool → Bool → List Action
handler_on_close has_with_this has_plain =
    (if has_with_this then call_close_callback_with_this ∷ [] else [])
    ++ (if has_plain then call_close_callback ∷ [] else [])

pub record Sent : Type 0 where
  pub success : Bool
  pub actions : List Action

-- `WebsocketHandler::SendWebsocketMessage`. `frame` is the local variable before it is filled.
unfoldable pub send_websocket_message : List ℕ → WebsocketFrame → MessageType → List ℕ → Sent
send_websocket_message random_bytes frame type bytes =
    let f = convert_message_to_frame random_bytes type bytes frame in
    let s = convert_frame_to_string f.frame [] in
    if not f.success
    then record { success = false; actions = [] }
    else if not s.success
    then record { success = false; actions = map handle_event s.events }
    else record {
      success = true;
      actions = map handle_event s.events ++ (send s.parsed_string ∷ []);
    }

unfoldable pub send_text_message : List ℕ → WebsocketFrame → WebsocketMessage → Sent
send_text_message random_bytes frame message =
    send_websocket_message random_bytes frame text_message message.contents
