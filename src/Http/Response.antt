-- ===== src/Http/Response.antt =====
-- woody/http/http_response.h and http_response.cc. `IntToString`, which is `boost::lexical_cast`,
-- is a parameter: it takes the 32-bit pattern of an `int`.
pub mod Format
pub mod ReadBack
pub mod Text
use woody.Shared.{
  ℕ, ◌%◌, ◌^◌, Bool, true, false, Option, none, some, List, [], ◌∷◌, ◌++◌, length, map,
}
use woody.Shared.Text.{codes}
use woody.Base.StringMap.{Bytes, StringMap, find, insert}

pub record HttpResponse : Type 0 where
  pub status_code : ℕ
  pub status_message : Bytes
  pub headers_map : StringMap
  pub body : Bytes

unfoldable pub set_status : ℕ → Bytes → HttpResponse → HttpResponse
set_status code message r = record r { status_code = code; status_message = message }

unfoldable pub add_header : Bytes → Bytes → HttpResponse → HttpResponse
add_header name value r = record r { headers_map = insert name value r.headers_map }

unfoldable pub add_body : Bytes → HttpResponse → HttpResponse
add_body body r = record r { body = body }

abbrev pub or_empty : Option Bytes → Bytes
or_empty none = []
or_empty (some v) = v

unfoldable pub get_header_value : Bytes → HttpResponse → Bytes
get_header_value name r = or_empty (find name r.headers_map)

-- The two vectors.
unfoldable pub get_all_headers : HttpResponse → List Bytes × List Bytes
get_all_headers r =
    (map (λ (h : Bytes × Bytes). h.0) r.headers_map, map (λ (h : Bytes × Bytes). h.1) r.headers_map)

abbrev pub crlf : Bytes
crlf = 13 ∷ 10 ∷ []

-- The loop that appends one line for each header.
unfoldable pub header_lines : StringMap → Bytes
header_lines [] = []
header_lines ((name, value) ∷ hs) = name ++ (58 ∷ 32 ∷ (value ++ (13 ∷ 10 ∷ header_lines hs)))

abbrev pub http_version : Bytes
http_version = codes "HTTP/1.1 "

abbrev pub content_length : Bytes
content_length = codes "Content-Length"

unfoldable pub clean_up : HttpResponse → HttpResponse
clean_up r = record { status_code = 0; status_message = []; headers_map = []; body = [] }

module _ (int_to_string : ℕ → Bytes) where
  abbrev pub first_line : HttpResponse → Bytes
  first_line r = http_version ++ (int_to_string r.status_code ++ (32 ∷ r.status_message))

  unfoldable pub to_string : HttpResponse → Bytes
  to_string r = first_line r ++ (13 ∷ 10 ∷ (header_lines r.headers_map ++ (13 ∷ 10 ∷ r.body)))

  unfoldable pub format : HttpResponse → HttpResponse
  format r = add_header content_length (int_to_string (length r.body % 2 ^ 32)) r

  -- What `End` hands to the handler's `Send`.
  unfoldable pub end : HttpResponse → Bytes
  end r = to_string (format r)
