-- ===== src/Examples/Echo.antt =====
-- An application that sends every text back.
use woody.Shared.{List, [], ◌∷◌}
use woody.Websocket.Message.{WebsocketMessage}
use woody.Websocket.Codec.{Event}
use woody.Websocket.Codec.Assembly.{message}
use woody.Websocket.Codec.Boxes.{no_boxes}
use woody.Websocket.Codec.Assembler.{boxes}
use woody.Websocket.Handler.Delivery.{assemble_stream}
use woody.Websocket.Handler.Session.{all_frames}
use woody.Websocket.Application.{Call, call_send_text, Callbacks}
use woody.Examples.Queue.{queue}
use woody.Examples.Boxed.{any_arrivals}

abbrev nothing : WebsocketMessage → List Call
nothing m = []

abbrev echo : Callbacks
echo = record {
  text_message_callback = λ m. call_send_text m ∷ [];
  binary_message_callback = nothing;
  close_message_callback = nothing;
  ping_message_callback = nothing;
  pong_message_callback = nothing;
}

abbrev events : List Event
events = (assemble_stream boxes (all_frames queue any_arrivals) no_boxes).events

abbrev hi_message : WebsocketMessage
hi_message = message (72 ∷ 105 ∷ [])

-- The frame between them that is turned down closes the connection, so the third is dropped.
abbrev echoed : List WebsocketMessage
echoed = hi_message ∷ hi_message ∷ []
