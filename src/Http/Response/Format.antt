-- ===== src/Http/Response/Format.antt =====
-- woody/http/http_response.cc: the header that `End` adds.
use mathlib.Core.Option.{get_or}
use woody.Shared.{ℕ, ◌%◌, ◌^◌, ◌≡◌, ap, ◌∙◌, refl, Option, none, some, length}
use woody.Base.StringMap.{Bytes, find}
use woody.Base.StringMap.Laws.{IsOrdered, find-insert}
use woody.Http.Response.{
  HttpResponse, get_header_value, or_empty, add_header, content_length, format,
}

-- If the headers are in the order of their names, then behind `Format` the content length is the
-- one that the application has set, or else the printed size of the body, as an `int`.
pub format_lem :
    (int_to_string : ℕ → Bytes) (r : HttpResponse)
    → IsOrdered r.headers_map
    → get_header_value content_length (format int_to_string r)
      ≡ get_or (find content_length r.headers_map) (int_to_string (length r.body % 2 ^ 32))
unfolding get_header_value format add_header find woody.Shared.Text.bytes_eq
format_lem int_to_string r o = ap or_empty (
    find-insert content_length content_length (int_to_string (length r.body % 2 ^ 32)) r.headers_map
      o)
