-- ===== src/Http/Codec/Sequence.antt =====
-- The requests of a connection, one after the other, each with its url, its headers and its body in
-- any number of pieces: the parser's calls for them, and the requests that the codec announces.
pub mod Steps
pub mod Request
pub mod Announced
use woody.Shared.{
  ℕ, ◌≡◌, refl, sym, ap, ap₂, ◌∙◌, Bool, true, false, List, [], ◌∷◌, ◌++◌, map, if◌then◌else◌,
}
use woody.Base.StringMap.{Bytes, StringMap, insert}
use woody.Http.Request.{
  HttpRequest, new_request, add_header, set_url, set_method, set_body, set_upgrade, parse_url,
  clean_up,
}
use woody.Http.Codec.{
  ParserCallback, message_begin, url, headers_complete, body, message_complete, HeaderParseState,
  parse_header_begin, parse_header_value, HttpCodec, CodecStep, step, HttpEvent, on_begin,
  on_complete, on_message_begin, on_url, parsed, on_headers_complete, on_body, on_message_complete,
  on_callbacks,
}
use woody.Http.Codec.Bodies.{parsed_body, upgraded_body}
use woody.Http.Codec.Headers.{
  Pieces, calls, whole, full_name, full_value, insert_all, last_header, all_but_last, with_headers,
  in_value, following, first_header, insert_last,
}

-- What the request parser finds of one request.
pub record Message : Type 0 where
  pub urls : List Bytes
  pub headers : List Pieces
  pub method : Bytes
  pub upgrade : Bool
  pub bodies : List Bytes

-- The parser's calls for one request, in front of other calls.
unfoldable pub run : Message → List ParserCallback → List ParserCallback
run q ks =
    message_begin
    ∷ (map url q.urls
        ++ calls q.headers
            (headers_complete q.method q.upgrade ∷ (map body q.bodies ++ (message_complete ∷ ks))))

-- What the codec holds between two requests.
pub record Held : Type 0 where
  pub name : Bytes
  pub value : Bytes
  pub body : Bytes

-- The last piece, or what there was before.
abbrev pub last_of : List Bytes → Bytes → Bytes
last_of [] s = s
last_of (t ∷ ts) s = last_of ts t

-- The headers that a request gets: the name of the first stands behind the name that is held, and a
-- request without headers gets the header that is held.
abbrev pub named : Held → List (Bytes × Bytes) → List (Bytes × Bytes)
named held [] = (held.name, held.value) ∷ []
named held ((k, v) ∷ ps) = (held.name ++ k, v) ∷ ps

abbrev pub last_named : Held → List (Bytes × Bytes) → Bytes × Bytes
last_named held [] = (held.name, held.value)
last_named held ((k, v) ∷ ps) = last_header (held.name ++ k, v) ps

-- A request behind its headers.
abbrev pub complete_request : Bytes → Bool → HttpRequest → HttpRequest
complete_request method upgrade r =
    let q = parsed (parse_url (set_method method r)) (set_method method r) in
    if upgrade then set_upgrade q else q

-- The request that is announced.
abbrev pub request_of : Message → Held → HttpRequest
request_of q held = set_body (last_of q.bodies held.body) (
    complete_request q.method q.upgrade (record new_request {
      url = last_of q.urls [];
      headers_map = insert_all (named held (whole q.headers)) [];
      body = held.body;
    }))

abbrev pub held_after : Message → Held → Held
held_after q held = record {
  name = (last_named held (whole q.headers)).0;
  value = (last_named held (whole q.headers)).1;
  body = last_of q.bodies held.body;
}

-- The requests that are announced, one after the other.
unfoldable pub requests_of : List Message → Held → List HttpRequest
requests_of [] held = []
requests_of (q ∷ qs) held = request_of q held ∷ requests_of qs (held_after q held)

unfoldable pub runs : List Message → List ParserCallback
runs [] = []
runs (q ∷ qs) = run q (runs qs)

-- The codec of a handler, between two requests.
pub record IsHolding (held : Held) (c : HttpCodec) : Type 0 where
  pub held_name : c.cur_header_name ≡ held.name
  pub held_value : c.cur_header_value ≡ held.value
  pub held_request : c.request ≡ record new_request { body = held.body }
  pub announces_begin : c.has_message_begin ≡ true
  pub announces : c.has_message_complete ≡ true
  pub no_headers_callback : c.has_headers_complete ≡ false

-- What the requests are announced as.
abbrev pub announcements : ℕ → List HttpRequest → List HttpEvent
announcements id [] = []
announcements id (r ∷ rs) = on_begin id ∷ on_complete id r ∷ announcements id rs

abbrev pub held_at_end : List Message → Held → Held
held_at_end [] held = held
held_at_end (q ∷ qs) held = held_at_end qs (held_after q held)
