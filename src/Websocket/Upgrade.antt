-- ===== src/Websocket/Upgrade.antt =====
-- woody/websocket/websocket_handler.h and websocket_handler.cc: `HandleUpgrade`, from an http
-- request to a websocket. The digest, the casts between strings and numbers and the split are
-- parameters, as the source takes them from its libraries; an `int` is its 32-bit pattern.
pub mod Accept
pub mod AcceptKey
pub mod Cases
pub mod Protocols
use woody.Shared.{
  ℕ, Bool, true, false, not, ◌&&◌, ◌||◌, Option, none, some, List, [], ◌∷◌, ◌++◌, map, length, ◌==◌,
  leb, if◌then◌else◌,
}
use woody.Shared.Text.{codes, bytes_eq}
use woody.Base.StringMap.{Bytes}
use woody.Bytree.StringUtil.{trim}
use woody.Bytree.Base64.{base64_encode, base64_decode, sha1}
use woody.Http.Request.{HttpRequest, Found, get_header}
use woody.Http.Response.{HttpResponse, add_header, set_status, end}
use woody.Websocket.Codec.{WebsocketCodec}

-- The callbacks to the application are in `Websocket.Handler`; `conn_` is whether it is set.
pub record WebsocketHandler : Type 0 where
  pub name : Bytes
  pub has_conn : Bool
  pub sub_protocols : List Bytes
  pub ws_codec : WebsocketCodec

-- How `HandleUpgrade` ends: `false` and nothing else changed; `boost::bad_lexical_cast`; `true`,
-- with the handler after it and the text that the response sends.
pub data Upgrade : Type 0 where
  refused : Upgrade
  bad_lexical_cast : Upgrade
  upgraded : WebsocketHandler → Bytes → Upgrade

abbrev pub guid : Bytes
guid = codes "258EAFA5-E914-47DA-95CA-C5AB0DC85B11"

abbrev pub k_version : ℕ
k_version = 13

-- `isspace` in the "C" locale.
abbrev pub is_space : ℕ → Bool
is_space c = c == 32 || (leb 9 c && leb c 13)

unfoldable pub add_sub_protocol : Bytes → WebsocketHandler → WebsocketHandler
add_sub_protocol protocol h = record h { sub_protocols = h.sub_protocols ++ (protocol ∷ []) }

-- The loop over the protocols.
unfoldable pub add_sub_protocols : List Bytes → WebsocketHandler → WebsocketHandler
add_sub_protocols [] h = h
add_sub_protocols (p ∷ ps) h = add_sub_protocols ps (add_sub_protocol (trim is_space p) h)

unfoldable pub set_callback : WebsocketHandler → WebsocketHandler
set_callback h = record h { has_conn = true }

-- The condition on the headers `Upgrade` and `Connection`.
unfoldable pub is_upgrade_refused : HttpRequest → Bool
is_upgrade_refused req =
    let upgrade = get_header (codes "Upgrade") [] req in
    let connection = get_header (codes "Connection") upgrade.value req in
    (not upgrade.success && bytes_eq upgrade.value (codes "websocket"))
    && (connection.success && bytes_eq connection.value (codes "upgrade"))

-- The response behind the four headers and the status.
unfoldable pub answer : Bytes → Bytes → HttpResponse → HttpResponse
answer version accept_key resp = set_status 101 (codes "Switching Protocols") (
    add_header (codes "Sec-WebSocket-Accept") accept_key (
      add_header (codes "Sec-WebSocket-Version") version (
        add_header (codes "Connection") (codes "Upgrade")
          (add_header (codes "Upgrade") (codes "websocket") resp))))

module _ (get_digest : Bytes → List ℕ) (int_to_string : ℕ → Bytes)
    (string_to_int : Bytes → Option ℕ) (split : Bytes → Bytes → List Bytes) where
  abbrev pub accept_of : Bytes → Bytes
  accept_of key = base64_encode (sha1 get_digest (key ++ guid))

  -- From `string protocols` on.
  unfoldable pub accept : WebsocketHandler → HttpRequest → HttpResponse → Bytes → Bytes → Upgrade
  accept h req resp key version =
      let protocols = get_header (codes "Sec-WebSocket-Protocol") [] req in
      let h' =
        if protocols.success && not (length protocols.value == 0)
        then add_sub_protocols (split protocols.value (codes ",")) h
        else h in
      upgraded (set_callback h') (end int_to_string (answer version (accept_of key) resp))

  abbrev pub check_version : Option ℕ → Upgrade → Upgrade
  check_version none next = bad_lexical_cast
  check_version (some n) next = if n == k_version then next else refused

  -- `WebsocketHandler::HandleUpgrade`
  unfoldable pub handle_upgrade : WebsocketHandler → HttpRequest → HttpResponse → Upgrade
  handle_upgrade h req resp =
      let key = get_header (codes "Sec-WebSocket-Key") [] req in
      let version = get_header (codes "Sec-WebSocket-Version") [] req in
      let next = accept h req resp key.value version.value in
      if not (bytes_eq req.method (codes "GET"))
      then refused
      else if is_upgrade_refused req
      then refused
      else if key.success && not (length (base64_decode key.value) == 16)
      then refused
      else if version.success
      then check_version (string_to_int version.value) next
      else next
