-- ===== src/Examples/Upgrading.antt =====
-- A handshake.
use woody.Shared.{
  ℕ, ◌≡◌, refl, true, false, Option, none, some, List, [], ◌∷◌, length, All, arith, ◌==◌,
  if◌then◌else◌, ap, inr,
}
use woody.Shared.Text.{codes, bytes_eq}
use woody.Base.Endian.{IsByte}
use woody.Base.StringMap.{Bytes, find}
use woody.Bytree.Base64.{base64_encode, base64_decode}
use woody.Bytree.Base64.RoundTrip.{base64_decode-base64_encode}
use woody.Http.Request.{HttpRequest, new_request}
use woody.Http.Response.{HttpResponse}
use woody.Websocket.Codec.{new_codec}
use woody.Websocket.Upgrade.{WebsocketHandler, upgraded, handle_upgrade, accept_of}
use woody.Websocket.Upgrade.AcceptKey.{accept_of-IsBase64}
use woody.Websocket.Upgrade.Cases.{Ends, IsAccepted, handle_upgrade-Ends}
use woody.Bytree.Base64.Size.{IsBase64}
use woody.Websocket.Codec.Assembly.{idle}
use woody.Websocket.Codec.Assembler.{protocol}
use woody.Websocket.Handler.Delivery.{assemble_stream}
use woody.Websocket.Handler.Reads.{handler_reads, IsServed}
use woody.Websocket.Handler.Session.{all_frames, all_reads}
use woody.Websocket.Service.{handle_upgrade-IsServed}
use woody.Examples.Queue.{queue}
use woody.Examples.Connecting.{arrivals, arrivals-Holds}
use woody.Examples.Frames.{parser}

abbrev pub nonce : Bytes
nonce = codes "0123456789abcdef"

pub nonce-IsByte : All IsByte nonce
nonce-IsByte = (
  omega arith,
  (
    omega arith,
    (
      omega arith,
      (
        omega arith,
        (
          omega arith,
          (
            omega arith,
            (
              omega arith,
              (
                omega arith,
                (
                  omega arith,
                  (
                    omega arith,
                    (
                      omega arith,
                      (omega arith, (omega arith, (omega arith, (omega arith, (omega arith, tt))))),
                    ),
                  ),
                ),
              ),
            ),
          ),
        ),
      ),
    ),
  ),
)

base64_decode-base64_encode_example : base64_decode (base64_encode nonce) ≡ nonce
base64_decode-base64_encode_example = base64_decode-base64_encode nonce nonce-IsByte (omega arith)

abbrev pub get_digest : Bytes → List ℕ
get_digest s = length s ∷ 2 ∷ 3 ∷ 4 ∷ 5 ∷ []

abbrev pub int_to_string : ℕ → Bytes
int_to_string n = b'1' ∷ []

abbrev pub string_to_int : Bytes → Option ℕ
string_to_int s = if length s == 2 then some 13 else none

abbrev pub split : Bytes → Bytes → List Bytes
split s pattern = s ∷ []

abbrev request : HttpRequest
request = record new_request {
  method = codes "GET";
  headers_map =
      (codes "Sec-WebSocket-Key", base64_encode nonce)
      ∷ (codes "Sec-WebSocket-Version", codes "13")
      ∷ [];
}

abbrev response : HttpResponse
response = record { status_code = 0; status_message = []; headers_map = []; body = [] }

abbrev pub handler : WebsocketHandler
handler = record {
  name = codes "h";
  has_conn = false;
  sub_protocols = [];
  ws_codec = new_codec parser;
}

handle_upgrade-Ends_example :
    Ends get_digest int_to_string string_to_int split handler request response
      (handle_upgrade get_digest int_to_string string_to_int split handler request response)
handle_upgrade-Ends_example =
    handle_upgrade-Ends get_digest int_to_string string_to_int split handler request response

request-IsAccepted : IsAccepted string_to_int request
unfolding find bytes_eq
request-IsAccepted = record {
  is_get = refl;
  right_key = inr (
    base64_encode nonce,
    refl,
    ap (λ (s : Bytes). length s) (base64_decode-base64_encode nonce nonce-IsByte (omega arith)),
  );
  right_version = inr (codes "13", refl, refl);
}

handle_upgrade-IsServed_example :
    (h' : WebsocketHandler) × (text : Bytes) × (handle_upgrade get_digest int_to_string
        string_to_int split handler request response
      ≡ upgraded h' text)
    × (h'.has_conn ≡ true)
    × IsServed protocol
        (assemble_stream protocol (all_frames queue arrivals) idle)
        (handler_reads queue (all_reads queue arrivals) h'.ws_codec)
handle_upgrade-IsServed_example =
    handle_upgrade-IsServed get_digest int_to_string string_to_int split queue parser handler
      request response arrivals refl request-IsAccepted arrivals-Holds

accept_of-IsBase64_example :
    (length (accept_of get_digest int_to_string string_to_int split (base64_encode nonce)) ≡ 28)
    × All IsBase64 (accept_of get_digest int_to_string string_to_int split (base64_encode nonce))
accept_of-IsBase64_example =
    accept_of-IsBase64 get_digest int_to_string string_to_int split (base64_encode nonce) refl
