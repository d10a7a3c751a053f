-- ===== src/Websocket/Upgrade/Accept.antt =====
-- woody/websocket/websocket_handler.cc: what a well-formed handshake gets.
use woody.Shared.{
  arith, ℕ, ◌≡◌, refl, ap, ◌∙◌, Bool, true, false, not, ◌&&◌, Option, none, some, List, [], ◌++◌,
  length, All,
}
use woody.Shared.Text.{codes, bytes_eq, bytes_lt, bytes_eq_refl}
use woody.Base.Endian.{IsByte}
use woody.Base.StringMap.{Bytes, find, insert}
use woody.Bytree.Base64.{base64_encode, base64_decode, sha1}
use woody.Bytree.Base64.RoundTrip.{base64_decode-base64_encode}
use woody.Http.Request.{HttpRequest, found, get_header}
use woody.Http.Response.{HttpResponse, add_header, set_status, end, get_header_value}
use woody.Websocket.Upgrade.{
  WebsocketHandler, upgraded, is_upgrade_refused, set_callback, answer, accept_of, accept,
  handle_upgrade, guid,
}

refused_header :
    (o : Option Bytes) (b : Bool)
    → ((not (found o []).success && bytes_eq (found o []).value (codes "websocket")) && b) ≡ false
unfolding bytes_eq
refused_header none b = refl
refused_header (some v) b = refl

pub is_upgrade_refused_lem : (req : HttpRequest) → is_upgrade_refused req ≡ false
unfolding is_upgrade_refused get_header
is_upgrade_refused_lem req = refused_header (find (codes "Upgrade") req.headers_map) _

answer_accept :
    (version key : Bytes) (resp : HttpResponse)
    → resp.headers_map ≡ []
    → get_header_value (codes "Sec-WebSocket-Accept") (answer version key resp) ≡ key
unfolding get_header_value answer set_status add_header
answer_accept version key resp e = rw e (unfold find insert bytes_eq bytes_lt in refl)

-- A handshake that `HandleUpgrade` answers: the method, the key and the version are right. Nothing
-- is asked of the headers `Upgrade` and `Connection`.
pub record IsHandshake (string_to_int : Bytes → Option ℕ) (nonce version : Bytes)
    (req : HttpRequest) : Type 0 where
  pub is_get : req.method ≡ codes "GET"
  pub has_key : find (codes "Sec-WebSocket-Key") req.headers_map ≡ some (base64_encode nonce)
  pub nonce_size : length nonce ≡ 16
  pub are_bytes : All IsByte nonce
  pub has_version : find (codes "Sec-WebSocket-Version") req.headers_map ≡ some version
  pub is_thirteen : string_to_int version ≡ some 13

module _ (get_digest : Bytes → List ℕ) (int_to_string : ℕ → Bytes)
    (string_to_int : Bytes → Option ℕ) (split : Bytes → Bytes → List Bytes) where
  accepted :
      (nonce version : Bytes) (h : WebsocketHandler) (req : HttpRequest) (resp : HttpResponse)
      → IsHandshake string_to_int nonce version req
      → handle_upgrade get_digest int_to_string string_to_int split h req resp
        ≡ accept get_digest int_to_string string_to_int split h req resp
            (base64_encode nonce)
            version
  unfolding handle_upgrade get_header
  accepted nonce version h req resp i =
      let size : length (base64_decode (base64_encode nonce)) ≡ 16 =
        ap (λ (s : Bytes). length s)
          (base64_decode-base64_encode nonce i.are_bytes (omega (arith, i.nonce_size)))
        ∙ i.nonce_size in
      let get : bytes_eq req.method (codes "GET") ≡ true =
        ap (λ (m : Bytes). bytes_eq m (codes "GET")) i.is_get ∙ bytes_eq_refl (codes "GET") in
      rw (i.has_key, i.has_version, is_upgrade_refused_lem req, get, size, i.is_thirteen) refl

  -- `HandleUpgrade` accepts a GET request with a key that is the Base64 of a nonce of 16 bytes and
  -- a version that casts to 13, whatever its headers `Upgrade` and `Connection` are, or if it has
  -- none: the handler then has its connection, and what is sent is the text of a response with the
  -- status 101 whose `Sec-WebSocket-Accept` is the Base64 of the digest of the key and the
  -- protocol's GUID, if the response had no headers before.
  pub handle_upgrade-accepts :
      (nonce version : Bytes) (h : WebsocketHandler) (req : HttpRequest) (resp : HttpResponse)
      → IsHandshake string_to_int nonce version req
      → resp.headers_map ≡ []
      → (h' : WebsocketHandler) × (r' : HttpResponse) × (handle_upgrade get_digest int_to_string
            string_to_int split h req resp
          ≡ upgraded h' (end int_to_string r'))
        × (h'.has_conn ≡ true)
        × (r'.status_code ≡ 101)
        × (get_header_value (codes "Sec-WebSocket-Accept") r'
            ≡ base64_encode (sha1 get_digest (base64_encode nonce ++ guid)))
  unfolding accept set_callback
  handle_upgrade-accepts nonce version h req resp i empty = (
    _,
    answer version (accept_of get_digest int_to_string string_to_int split (base64_encode nonce))
        resp,
    accepted nonce version h req resp i,
    refl,
    unfold answer set_status in refl,
    answer_accept version
        (accept_of get_digest int_to_string string_to_int split (base64_encode nonce)) resp empty,
  )
