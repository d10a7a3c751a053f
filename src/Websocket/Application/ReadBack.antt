-- ===== src/Websocket/Application/ReadBack.antt =====
-- A websocket client and an application: from the client's frames to the messages that it reads.
use woody.Shared.{ℕ, zero, suc, ◌≤◌, Option, none, some, List, [], ◌∷◌, ◌++◌, length, drop}
use woody.Net.Buffer.{Buffer}
use woody.Websocket.Frame.{WebsocketFrame}
use woody.Websocket.Message.{WebsocketMessage, text_message}
use woody.Websocket.Parser.{WebsocketParser, parse}
use woody.Websocket.Codec.{Event, on_text, on_binary, on_close, on_ping, on_pong, on_error}
use woody.Websocket.Codec.Wire.{sent_wire}
use woody.Websocket.Codec.Boxes.{Boxes}
use woody.Websocket.Handler.{
  Action, call_text, call_binary, call_close, call_ping, call_pong, call_close_callback_with_this,
  call_close_callback, send, force_close,
}
use woody.Websocket.Handler.Sending.{server_frame}
use woody.Websocket.Application.{Call, call_send_text, call_force_close, Callbacks}

-- What the connection takes of what is done on it, as one string: what is sent in front of the
-- first forced close. `forceClose` leaves muduo's connection in the state `kDisconnecting`, in which
-- its `send` drops what it is given (lib/muduo/net/TcpConnection.cc).
unfoldable pub sent_bytes : List Action → List ℕ
sent_bytes [] = []
sent_bytes (send bytes ∷ as') = bytes ++ sent_bytes as'
sent_bytes (call_text m ∷ as') = sent_bytes as'
sent_bytes (call_binary m ∷ as') = sent_bytes as'
sent_bytes (call_close m ∷ as') = sent_bytes as'
sent_bytes (call_ping m ∷ as') = sent_bytes as'
sent_bytes (call_pong m ∷ as') = sent_bytes as'
sent_bytes (call_close_callback_with_this ∷ as') = sent_bytes as'
sent_bytes (call_close_callback ∷ as') = sent_bytes as'
sent_bytes (force_close ∷ as') = []

-- The text messages among calls, up to the first that closes.
abbrev pub texts_of : List Call → List WebsocketMessage
texts_of [] = []
texts_of (call_send_text m ∷ ks) = m ∷ texts_of ks
texts_of (call_force_close ∷ ks) = []

-- What an event comes to: the calls of the application's callback, and the close for an error.
abbrev pub called : Callbacks → Event → List Call
called cb (on_text m) = cb.text_message_callback m
called cb (on_binary m) = cb.binary_message_callback m
called cb (on_close m) = cb.close_message_callback m
called cb (on_ping m) = cb.ping_message_callback m
called cb (on_pong m) = cb.pong_message_callback m
called cb on_error = call_force_close ∷ []

unfoldable pub all_called : Callbacks → List Event → List Call
all_called cb [] = []
all_called cb (e ∷ es) = called cb e ++ all_called cb es

abbrev pub replies : Callbacks → List Event → List WebsocketMessage
replies cb es = texts_of (all_called cb es)

abbrev pub IsShort : WebsocketMessage → Type 0
IsShort m = length m.contents ≤ 0xffff_ffff

-- The frames of text messages, one after the other.
unfoldable pub text_stream : List WebsocketMessage → List ℕ
text_stream [] = []
text_stream (m ∷ ms) = sent_wire (server_frame text_message m.contents) ++ text_stream ms

-- What a client's parser makes of a string: the opcodes and the payloads of its frames.
abbrev pub first_frame : Option WebsocketFrame → List (ℕ × List ℕ) → List (ℕ × List ℕ)
first_frame none rest = []
first_frame (some f) rest = (f.opcode, f.body) ∷ rest

unfoldable pub read_frames : ℕ → List ℕ → WebsocketParser → List (ℕ × List ℕ)
read_frames zero s p = []
read_frames (suc fuel) s p =
    let r = parse s 0 p in
    let rest = read_frames fuel (drop r.parsed_bytes s) r.parser in first_frame r.complete rest

abbrev pub as_text : WebsocketMessage → ℕ × List ℕ
as_text m = (1, m.contents)
