-- ===== src/Http/Codec/Sequence/Steps.antt =====
-- The url, the headers and the body of one request.
use woody.Shared.{◌≡◌, refl, ap, ◌∙◌, Bool, true, false, List, [], ◌∷◌, ◌++◌, map}
use woody.Base.StringMap.{Bytes, StringMap}
use woody.Http.Request.{HttpRequest, add_header, set_url, set_method, set_body, parse_url}
use woody.Http.Codec.{
  ParserCallback, url, headers_complete, body, HeaderParseState, parse_header_begin,
  parse_header_value, HttpCodec, on_url, parsed, on_headers_complete, on_body, on_callbacks,
}
use woody.Http.Codec.Bodies.{parsed_body, upgraded_body}
use woody.Http.Codec.Headers.{
  Pieces, calls, whole, full_name, full_value, insert_all, last_header, all_but_last, with_headers,
  in_value, following, first_header, insert_last,
}
use woody.Http.Codec.Sequence.{Held, last_of, named, last_named, complete_request}

abbrev pub with_request : HttpRequest → HttpCodec → HttpCodec
with_request r c = record c { request = r }

pub url_pieces :
    (us : List Bytes) (ks : List ParserCallback) (c : HttpCodec)
    → on_callbacks (map url us ++ ks) c
      ≡ on_callbacks ks (with_request (set_url (last_of us c.request.url) c.request) c)
unfolding on_callbacks on_url
url_pieces [] ks c = refl
url_pieces (u ∷ us) ks c = url_pieces us ks (with_request (set_url u c.request) c)

pub body_pieces :
    (bs : List Bytes) (ks : List ParserCallback) (c : HttpCodec)
    → on_callbacks (map body bs ++ ks) c
      ≡ on_callbacks ks (with_request (set_body (last_of bs c.request.body) c.request) c)
unfolding on_callbacks on_body
body_pieces [] ks c = refl
body_pieces (b ∷ bs) ks c = body_pieces bs ks (with_request (set_body b c.request) c)

pub complete_request_body :
    (method : Bytes) (upgrade : Bool) (r : HttpRequest)
    → (complete_request method upgrade r).body ≡ r.body
complete_request_body method upgrade r =
    upgraded_body upgrade (parsed (parse_url (set_method method r)) (set_method method r))
    ∙ parsed_body (set_method method r)

-- The codec behind `OnHeadersComplete`.
abbrev state_behind : List Pieces → HeaderParseState → HeaderParseState
state_behind [] s = s
state_behind (h ∷ hs) s = parse_header_value

abbrev holds : HttpCodec → Held
holds c = record { name = c.cur_header_name; value = c.cur_header_value; body = c.request.body }

abbrev pub headed : StringMap → HttpRequest → HttpRequest
headed m r = record r { headers_map = m }

abbrev pub completed : List Pieces → Bytes → Bool → HttpCodec → HttpCodec
completed hs method upgrade c = record c {
  parse_state = state_behind hs c.parse_state;
  is_headers_complete = true;
  cur_header_name = (last_named (holds c) (whole hs)).0;
  cur_header_value = (last_named (holds c) (whole hs)).1;
  request =
      complete_request method upgrade
        (headed (insert_all (named (holds c) (whole hs)) c.request.headers_map) c.request);
}

headers_complete_lem :
    (method : Bytes) (upgrade : Bool) (ks : List ParserCallback) (c : HttpCodec)
    → c.has_headers_complete ≡ false
    → on_callbacks (headers_complete method upgrade ∷ ks) c
      ≡ on_callbacks ks (completed [] method upgrade c)
unfolding on_callbacks on_headers_complete add_header insert_all
headers_complete_lem method upgrade ks c e = rw e refl

insert_all_last :
    (n v : Bytes) (ps : List (Bytes × Bytes)) (m : StringMap)
    → insert_all
        (((last_header (n, v) ps).0, (last_header (n, v) ps).1) ∷ [])
        (all_but_last (n, v) ps m)
      ≡ insert_all ((n, v) ∷ ps) m
insert_all_last n v ps m = unfold insert_all in insert_last (n, v) ps m

pub headers_lem :
    (hs : List Pieces) (method : Bytes) (upgrade : Bool) (ks : List ParserCallback) (c : HttpCodec)
    → c.parse_state ≡ parse_header_begin
    → c.has_headers_complete ≡ false
    → on_callbacks (calls hs (headers_complete method upgrade ∷ ks)) c
      ≡ on_callbacks ks (completed hs method upgrade c)
headers_lem [] method upgrade ks c begins none_set =
    unfold calls in headers_complete_lem method upgrade ks c none_set
headers_lem (h ∷ hs) method upgrade ks c begins none_set =
    let n : Bytes = c.cur_header_name ++ full_name h in
    let p : Bytes × Bytes = (n, full_value h) in
    let d : HttpCodec = with_headers (all_but_last p (whole hs) c.request.headers_map) c in
    first_header h hs (headers_complete method upgrade ∷ ks) c begins
    ∙ following hs n (full_value h) (headers_complete method upgrade ∷ ks) c
    ∙ headers_complete_lem method upgrade ks
        (in_value (last_header p (whole hs)).0 (last_header p (whole hs)).1 d) none_set
    ∙ ap
        (λ (m : StringMap). on_callbacks ks (record (completed (h ∷ hs) method upgrade c) {
          request = complete_request method upgrade (headed m c.request);
        }))
        (insert_all_last n (full_value h) (whole hs) c.request.headers_map)
