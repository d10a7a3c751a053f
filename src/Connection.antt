-- ===== src/Connection.antt =====
-- A connection of a server, from its reads to what is sent: `HTTPHandler::OnMessageComplete` and
-- `HTTPServer::OnRequest` hand a request to an application (woody/http/http_application.h), whose
-- `HandleRequest` calls the response, the handler or `WebsocketHandler::HandleUpgrade`. The
-- connection's message callback is the http handler's until an upgrade sets the websocket
-- handler's. An application answers by the request and the fresh response alone.
pub mod Answers
pub mod Reads
pub mod Upgraded
pub mod Branches
pub mod Early
pub mod Courses
use woody.Shared.{ℕ, Bool, true, false, Option, none, some, List, [], ◌∷◌, ◌++◌, map}
use woody.Base.StringMap.{Bytes}
use woody.Net.Buffer.{Buffer}
use woody.Net.Loop.{Outcome, finished, out_of_range, overrun, bad_cast, stuck}
use woody.Http.Request.{HttpRequest}
use woody.Http.Response.{HttpResponse, end}
use woody.Http.Codec.{HttpCodec, ParserRun}
use woody.Http.Handler.{
  HandlerAction, request_complete, force_close, call_close_callback_with_this, call_close_callback,
  http_handler_on_data,
}
use woody.Http.Handler
use woody.Http.Server.{HttpServer, on_request}
use woody.Websocket.Codec.{WebsocketCodec}
use woody.Websocket.Handler.{Action, handler_on_data, handler_on_close}
use woody.Websocket.Upgrade.{
  WebsocketHandler, Upgrade, refused, bad_lexical_cast, upgraded, handle_upgrade,
}

-- What `HandleRequest` does, call by call; `HandleUpgrade` returns whether it upgraded.
pub data Program : Type 0 where
  done : Program
  call_send : Bytes → Program → Program
  call_force_close : Program → Program
  call_end : HttpResponse → Program → Program
  call_handle_upgrade : WebsocketHandler → HttpResponse → (Bool → Program) → Program

-- `HTTPApplication::HandleRequest`
abbrev pub HttpApplication : Type 0
HttpApplication = HttpRequest → HttpResponse → Program

-- `HTTPResponse resp(shared_from_this())`, whose `status_code_` holds what the memory held.
unfoldable pub new_response : ℕ → HttpResponse
new_response status_code = record {
  status_code = status_code;
  status_message = [];
  headers_map = [];
  body = [];
}

-- The server of a connection, what it takes from its libraries (the digest, the casts between
-- strings and numbers and the split), and the status code that a fresh response happens to have.
pub record Setting : Type 0 where
  pub get_digest : Bytes → List ℕ
  pub int_to_string : ℕ → Bytes
  pub string_to_int : Bytes → Option ℕ
  pub split : Bytes → Bytes → List Bytes
  pub status_code : ℕ
  pub server : HttpServer HttpApplication

-- What is done on a connection: a text sent by the http handler, its other actions, and those of
-- the websocket handler.
pub data ConnectionAction : Type 0 where
  sends : Bytes → ConnectionAction
  by_http : HandlerAction → ConnectionAction
  by_websocket : Action → ConnectionAction

-- The http handler's parser and codec, and the websocket handler that has the message callback.
pub record Connection (P : Type 0) : Type 0 where
  pub http : P × HttpCodec
  pub websocket : Option WebsocketHandler

-- How callbacks end: by themselves, with the websocket handler behind them, or by the exception.
pub data Run : Type 0 where
  ran : Option WebsocketHandler → List ConnectionAction → Run
  thrown : Run

abbrev pub behind : List ConnectionAction → Run → Run
behind es (ran w fs) = ran w (es ++ fs)
behind es thrown = thrown

abbrev pub and_run : Run → (Option WebsocketHandler → Run) → Run
and_run (ran w es) next = behind es (next w)
and_run thrown next = thrown

-- Behind `HandleUpgrade`, which sets the message callback before it sends.
abbrev pub behind_upgrade :
    Upgrade → Option WebsocketHandler → (Bool → Option WebsocketHandler → Run) → Run
behind_upgrade refused w next = next false w
behind_upgrade bad_lexical_cast w next = thrown
behind_upgrade (upgraded h text) w next = behind (sends text ∷ []) (next true (some h))

module _ (x : Setting) where
  unfoldable pub run_program : Program → HttpRequest → Option WebsocketHandler → Run
  run_program done req w = ran w []
  run_program (call_send text k) req w = behind (sends text ∷ []) (run_program k req w)
  run_program (call_force_close k) req w = behind (by_http force_close ∷ []) (run_program k req w)
  run_program (call_end r k) req w =
      behind (sends (end x.int_to_string r) ∷ []) (run_program k req w)
  run_program (call_handle_upgrade h r k) req w =
      behind_upgrade (handle_upgrade x.get_digest x.int_to_string x.string_to_int x.split h req r) w
        (λ b w'. run_program (k b) req w')

  abbrev pub run_application : Option HttpApplication → HttpRequest → Option WebsocketHandler → Run
  run_application none req w = ran w []
  run_application (some app) req w = run_program (app req (new_response x.status_code)) req w

  -- `HTTPHandler::OnMessageComplete`
  unfoldable pub complete_message : HttpRequest → Option WebsocketHandler → Run
  complete_message req w = run_application (on_request x.server req) req w

  abbrev pub run_action : HandlerAction → Option WebsocketHandler → Run
  run_action (request_complete req) w = complete_message req w
  run_action force_close w = ran w (by_http force_close ∷ [])
  run_action call_close_callback_with_this w = ran w (by_http call_close_callback_with_this ∷ [])
  run_action call_close_callback w = ran w (by_http call_close_callback ∷ [])

  -- The actions of the http handler's loop. No callback changes what the loop reads, so they run
  -- as one list behind it. A loop that ends the program does so whether or not a callback throws
  -- in front of that, and is then given by its own end.
  unfoldable pub run_actions : List HandlerAction → Option WebsocketHandler → Run
  run_actions [] w = ran w []
  run_actions (a ∷ as') w = and_run (run_action a w) (λ w'. run_actions as' w')

  module _ {P : Type 0} where
    abbrev pub end_of_run :
        {B : Type 0} → B → P × HttpCodec → Run → Outcome B (Connection P) ConnectionAction
    end_of_run b s (ran w es) = finished b (record { http = s; websocket = w }) es
    end_of_run b s thrown = bad_cast

    abbrev pub behind_http :
        {B : Type 0}
        → Outcome B (P × HttpCodec) HandlerAction
        → Outcome B (Connection P) ConnectionAction
    behind_http (finished b s as') = end_of_run b s (run_actions as' none)
    behind_http out_of_range = out_of_range
    behind_http overrun = overrun
    behind_http bad_cast = bad_cast
    behind_http stuck = stuck

    abbrev pub behind_websocket :
        {B : Type 0}
        → P × HttpCodec
        → WebsocketHandler
        → Outcome B WebsocketCodec Action
        → Outcome B (Connection P) ConnectionAction
    behind_websocket s h (finished b c as') =
        finished b (record { http = s; websocket = some (record h { ws_codec = c }) })
          (map by_websocket as')
    behind_websocket s h out_of_range = out_of_range
    behind_websocket s h overrun = overrun
    behind_websocket s h bad_cast = bad_cast
    behind_websocket s h stuck = stuck

    module _ (m : Buffer) (execute : P → Bytes → ParserRun P) where
      open m use {Buf}

      abbrev pub message_callback :
          Buf
          → P × HttpCodec
          → Option WebsocketHandler
          → Outcome Buf (Connection P) ConnectionAction
      message_callback b s none = behind_http (http_handler_on_data m execute b s)
      message_callback b s (some h) = behind_websocket s h (handler_on_data m b h.ws_codec)

      -- The connection's message callback, as the http handler's constructor and the websocket
      -- handler's `SetCallback` set it.
      unfoldable pub on_read : Buf → Connection P → Outcome Buf (Connection P) ConnectionAction
      on_read b c = message_callback b c.http c.websocket

-- The connection's close callback, set with the message callback, by whether the handler's own
-- callbacks are set.
abbrev close_callback : Bool → Bool → Option WebsocketHandler → List ConnectionAction
close_callback has_with_this has_plain none = map by_http (Handler.on_close has_with_this has_plain)
close_callback has_with_this has_plain (some h) =
    map by_websocket (handler_on_close has_with_this has_plain)

unfoldable pub on_connection_close :
    {P : Type 0} → Bool → Bool → Connection P → List ConnectionAction
on_connection_close has_with_this has_plain c = close_callback has_with_this has_plain c.websocket
