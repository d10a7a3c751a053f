-- ===== src/Http/Handler.antt =====
-- woody/http/http_handler.h and http_handler.cc, over the loop of `Net.Loop`. `ForceClose` and `Send`
-- are calls of the connection.
pub mod Reads
pub mod Session
use woody.Shared.{Bool, true, false, List, [], ◌∷◌, ◌++◌, if◌then◌else◌}
use woody.Base.StringMap.{Bytes}
use woody.Net.Buffer.{Buffer}
use woody.Net.Loop.{Fed, Outcome}
use woody.Net.Loop
use woody.Http.Request.{HttpRequest}
use woody.Http.Codec.{
  HttpEvent, on_begin, on_complete, on_headers, on_error, HttpCodec, new_codec, ParserRun, on_data,
}

-- What a handler does. In the codec's callbacks: `OnMessageBegin` is empty, `OnMessageComplete`
-- hands the request to the server, `HandleError` closes the connection. The handler's constructor
-- sets no callback for the headers.
pub data HandlerAction : Type 0 where
  request_complete : HttpRequest → HandlerAction
  force_close : HandlerAction
  call_close_callback_with_this : HandlerAction
  call_close_callback : HandlerAction

unfoldable pub handle_event : HttpEvent → List HandlerAction
handle_event (on_begin id) = []
handle_event (on_complete id req) = request_complete req ∷ []
handle_event on_headers = []
handle_event on_error = force_close ∷ []

abbrev pub handle_events : List HttpEvent → List HandlerAction
handle_events [] = []
handle_events (e ∷ es) = handle_event e ++ handle_events es

-- `HTTPHandler::HTTPHandler`
abbrev pub handler_codec : HttpCodec
handler_codec = record new_codec { has_message_begin = true; has_message_complete = true }

-- The codec's call in `HTTPHandler::OnData`.
unfoldable pub feed :
    {P : Type 0}
    → (P → Bytes → ParserRun P)
    → Bytes
    → P × HttpCodec
    → Fed (P × HttpCodec) HandlerAction
feed execute bytes (p, c) =
    let d = on_data execute bytes p c in
    record {
      success = true;
      parsed_bytes = d.bytes_parsed;
      codec = (d.parser, d.codec);
      events = handle_events d.events;
    }

-- `HTTPHandler::OnData`
unfoldable pub http_handler_on_data :
    {P : Type 0}
    → (m : Buffer) → (P → Bytes → ParserRun P)
    → m.Buf
    → P × HttpCodec
    → Outcome m.Buf (P × HttpCodec) HandlerAction
http_handler_on_data m execute b s = Loop.on_data m (feed execute) b s

-- `HTTPHandler::OnClose`, by whether the two callbacks are set.
unfoldable pub on_close : Bool → Bool → List HandlerAction
on_close has_with_this has_plain =
    (if has_with_this then call_close_callback_with_this ∷ [] else [])
    ++ (if has_plain then call_close_callback ∷ [] else [])
