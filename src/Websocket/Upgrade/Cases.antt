-- ===== src/Websocket/Upgrade/Cases.antt =====
-- woody/websocket/websocket_handler.cc: what every request for an upgrade gets.
use Prim.Native.String.{String}
use woody.Shared.{
  ℕ, ◌≡◌, ◌≢◌, arith, refl, sym, ap, ◌∙◌, ◌⊎◌, inl, inr, Bool, true, not, ◌&&◌, Option, none, some,
  List, [], length, ◌==◌, ==_iff, Bool-cases, if◌then◌else◌,
}
use woody.Shared.Text.{codes, bytes_eq, bytes_eq_iff}
use woody.Base.StringMap.{Bytes, find}
use woody.Bytree.Base64.{base64_decode}
use woody.Http.Request.{HttpRequest, found, get_header}
use woody.Http.Response.{HttpResponse, end}
use woody.Websocket.Upgrade.{
  WebsocketHandler, Upgrade, refused, bad_lexical_cast, upgraded, answer, accept_of, accept,
  check_version, handle_upgrade,
}
use woody.Websocket.Upgrade.Protocols.{offered, with_protocols, protocols_lem}
use woody.Websocket.Upgrade.Accept.{is_upgrade_refused_lem}

abbrev pub header : String → HttpRequest → Option Bytes
header name req = find (codes name) req.headers_map

-- Why a request is refused.
pub data IsRefused (string_to_int : Bytes → Option ℕ) (req : HttpRequest) : Type 0 where
  wrong_method : req.method ≢ codes "GET" → IsRefused string_to_int req
  wrong_key :
      (k : Bytes)
      → header "Sec-WebSocket-Key" req ≡ some k
      → length (base64_decode k) ≢ 16
      → IsRefused string_to_int req
  wrong_version :
      (v : Bytes) (n : ℕ)
      → header "Sec-WebSocket-Version" req ≡ some v
      → string_to_int v ≡ some n
      → n ≢ 13
      → IsRefused string_to_int req

-- A header that is right where there is one.
abbrev pub IsRight : Option Bytes → (Bytes → Type 0) → Type 0
IsRight o P = (o ≡ none) ⊎ ((v : Bytes) × (o ≡ some v) × P v)

-- What an upgraded request has.
pub record IsAccepted (string_to_int : Bytes → Option ℕ) (req : HttpRequest) : Type 0 where
  pub is_get : req.method ≡ codes "GET"
  pub right_key :
      IsRight (header "Sec-WebSocket-Key" req) (λ (k : Bytes). length (base64_decode k) ≡ 16)
  pub right_version :
      IsRight (header "Sec-WebSocket-Version" req) (λ (v : Bytes). string_to_int v ≡ some 13)

-- The bytes of a header, or none where it is missing.
abbrev pub value_of : Option Bytes → Bytes
value_of none = []
value_of (some v) = v

found_value : (o : Option Bytes) → (found o []).value ≡ value_of o
found_value none = refl
found_value (some v) = refl

module _ (get_digest : Bytes → List ℕ) (int_to_string : ℕ → Bytes)
    (string_to_int : Bytes → Option ℕ) (split : Bytes → Bytes → List Bytes) where
  -- What an accepted request gets.
  abbrev pub success : WebsocketHandler → HttpRequest → HttpResponse → Upgrade
  success h req resp =
      upgraded (with_protocols (offered split (header "Sec-WebSocket-Protocol" req)) h) (
        end int_to_string (
          answer (value_of (header "Sec-WebSocket-Version" req))
            (accept_of get_digest int_to_string string_to_int split
              (value_of (header "Sec-WebSocket-Key" req)))
            resp))

  accept_lem :
      (h : WebsocketHandler) (req : HttpRequest) (resp : HttpResponse)
      → accept get_digest int_to_string string_to_int split h req resp
          (value_of (header "Sec-WebSocket-Key" req))
          (value_of (header "Sec-WebSocket-Version" req))
        ≡ success h req resp
  unfolding accept get_header
  accept_lem h req resp =
      ap
        (λ (h' : WebsocketHandler). upgraded h' (
          end int_to_string (
            answer (value_of (header "Sec-WebSocket-Version" req))
              (accept_of get_digest int_to_string string_to_int split
                (value_of (header "Sec-WebSocket-Key" req)))
              resp)))
        (protocols_lem split (header "Sec-WebSocket-Protocol" req) h)

  -- How an upgrade may end, and when.
  pub data Ends (h : WebsocketHandler) (req : HttpRequest) (resp : HttpResponse)
      : Upgrade → Type 0 where
    ends_refused : IsRefused string_to_int req → Ends h req resp refused
    ends_thrown :
        (v : Bytes)
        → req.method ≡ codes "GET"
        → IsRight (header "Sec-WebSocket-Key" req) (λ (k : Bytes). length (base64_decode k) ≡ 16)
        → header "Sec-WebSocket-Version" req ≡ some v
        → string_to_int v ≡ none
        → Ends h req resp bad_lexical_cast
    ends_upgraded : IsAccepted string_to_int req → Ends h req resp (success h req resp)

  -- The guards, by what they read.
  abbrev verdict : Bool → Option Bytes → Option Bytes → Upgrade → Upgrade
  verdict is_get key version next =
      if not is_get
      then refused
      else if (found key []).success && not (length (base64_decode (found key []).value) == 16)
      then refused
      else if (found version []).success
      then check_version get_digest int_to_string string_to_int split
          (string_to_int (found version []).value) next
      else next

  handle_upgrade_lem :
      (h : WebsocketHandler) (req : HttpRequest) (resp : HttpResponse)
      → handle_upgrade get_digest int_to_string string_to_int split h req resp
        ≡ verdict
            (bytes_eq req.method (codes "GET"))
            (header "Sec-WebSocket-Key" req)
            (header "Sec-WebSocket-Version" req)
            (success h req resp)
  unfolding handle_upgrade get_header
  handle_upgrade_lem h req resp =
      rw
        (
          is_upgrade_refused_lem req,
          sym (accept_lem h req resp),
          found_value (header "Sec-WebSocket-Key" req),
          found_value (header "Sec-WebSocket-Version" req),
        )
        refl

  module _ (h : WebsocketHandler) (req : HttpRequest) (resp : HttpResponse)
      (is_get : req.method ≡ codes "GET") where
    cast-Ends :
        (v : Bytes) (o : Option ℕ)
        → header "Sec-WebSocket-Version" req ≡ some v
        → string_to_int v ≡ o
        → IsRight (header "Sec-WebSocket-Key" req) (λ (k : Bytes). length (base64_decode k) ≡ 16)
        → Ends h req resp
            (check_version get_digest int_to_string string_to_int split o (success h req resp))
    cast-Ends v none e c right = ends_thrown v is_get right e c
    cast-Ends v (some n) e c right = elim (Bool-cases (n == 13)) [
      | inl t ↦ rw t (
          ends_upgraded (record {
            is_get = is_get;
            right_key = right;
            right_version = inr (v, e, c ∙ ap (λ (i : ℕ). some i) ((==_iff n 13).0 t));
          }))
      | inr t ↦ rw t (ends_refused (wrong_version v n e c (ground arith)))
    ]

    version-Ends :
        (o : Option Bytes)
        → header "Sec-WebSocket-Version" req ≡ o
        → IsRight (header "Sec-WebSocket-Key" req) (λ (k : Bytes). length (base64_decode k) ≡ 16)
        → Ends h req resp (
            if (found o []).success
            then check_version get_digest int_to_string string_to_int split
                (string_to_int (found o []).value)
                (success h req resp)
            else success h req resp)
    version-Ends none e right =
        ends_upgraded (record { is_get = is_get; right_key = right; right_version = inl e })
    version-Ends (some v) e right = cast-Ends v (string_to_int v) e refl right

    key-Ends :
        (o o' : Option Bytes)
        → header "Sec-WebSocket-Key" req ≡ o
        → header "Sec-WebSocket-Version" req ≡ o'
        → Ends h req resp (verdict true o o' (success h req resp))
    key-Ends none o' e e' = version-Ends o' e' (inl e)
    key-Ends (some k) o' e e' = elim (Bool-cases (length (base64_decode k) == 16)) [
      | inl t ↦ rw t (version-Ends o' e' (inr (k, e, (==_iff _ _).0 t)))
      | inr t ↦ rw t (ends_refused (wrong_key k e (ground arith)))
    ]

  -- Every request for an upgrade ends in one of three ways, and only for the reasons given with it.
  -- It is refused, with nothing sent and nothing changed, if its method is not GET, or it has a key
  -- that does not decode to 16 bytes, or a version that casts to another number than 13. The cast
  -- throws if the request has a version that is no number. And it is upgraded if its method is GET,
  -- and its key, if it has one, decodes to 16 bytes, and its version, if it has one, casts to 13:
  -- the handler then has its connection and, behind its own sub-protocols, those offered, trimmed,
  -- and its codec is what it was.
  pub handle_upgrade-Ends :
      (h : WebsocketHandler) (req : HttpRequest) (resp : HttpResponse)
      → Ends h req resp (handle_upgrade get_digest int_to_string string_to_int split h req resp)
  handle_upgrade-Ends h req resp =
      rw (handle_upgrade_lem h req resp) (elim (Bool-cases (bytes_eq req.method (codes "GET"))) [
        | inl e ↦ rw e (key-Ends h req resp ((bytes_eq_iff _ _).0 e) _ _ refl refl)
        | inr e ↦ rw e (
            ends_refused (
              wrong_method (λ p.
                let t : bytes_eq req.method (codes "GET") ≡ true = (bytes_eq_iff _ _).1 p in cc)))
      ])
