-- ===== src/Http/Server.antt =====
-- woody/http/http_server.h and http_server.cc. An application is what `apps_` points to; a handler is known
-- by the name that it was made with.
pub mod Routing
pub mod Connections
pub mod Interleaving
use woody.Shared.{ℕ, Bool, true, false, Option, none, some, List, [], ◌∷◌, ◌++◌, if◌then◌else◌}
use woody.Shared.Text.{bytes_eq}
use woody.Base.StringMap.{Bytes, StringMap, insert}
use woody.Bytree.StringUtil.{is_string_begin_with}
use woody.Http.Request.{HttpRequest}
use woody.Http.Codec.{
  HttpEvent, on_begin, on_complete, on_headers, on_error, HttpCodec, new_codec, ParserRun,
  CodecData, on_data,
}
use woody.Net.Loop.{Fed}

-- `handler_map_` maps the name of a connection to the handler of that name.
pub record HttpServer (A : Type 0) : Type 0 where
  pub apps : List (Bytes × A)
  pub handler_map : StringMap

module _ {A : Type 0} where
  unfoldable pub handle : Bytes → A → HttpServer A → HttpServer A
  handle path_prefix app s = record s { apps = s.apps ++ ((path_prefix, app) ∷ []) }

  -- The loop of `OnRequest`: the application that gets the request.
  unfoldable pub find_app : List (Bytes × A) → Bytes → Option A
  find_app [] url = none
  find_app ((path_prefix, app) ∷ rest) url =
      if is_string_begin_with url path_prefix then some app else find_app rest url

  unfoldable pub on_request : HttpServer A → HttpRequest → Option A
  on_request s req = find_app s.apps req.url

  -- A handler's name is that of its connection.
  unfoldable pub on_connection : Bytes → HttpServer A → HttpServer A
  on_connection conn_name s = record s { handler_map = insert conn_name conn_name s.handler_map }

  unfoldable pub on_disconnection : Bytes → HttpServer A → HttpServer A
  on_disconnection conn_name s = s

  unfoldable pub on_create_or_destroy_connection : Bool → Bytes → HttpServer A → HttpServer A
  on_create_or_destroy_connection connected conn_name s =
      if connected then on_connection conn_name s else on_disconnection conn_name s

-- `erase` of the entry of a key.
unfoldable pub erase : Bytes → StringMap → StringMap
erase k [] = []
erase k ((j, w) ∷ m) = if bytes_eq j k then m else (j, w) ∷ erase k m

unfoldable pub on_handler_close : {A : Type 0} → Bytes → HttpServer A → HttpServer A
on_handler_close conn_name s = record s { handler_map = erase conn_name s.handler_map }
