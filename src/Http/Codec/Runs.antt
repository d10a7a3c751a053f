-- ===== src/Http/Codec/Runs.antt =====
-- What a codec carries from one request on a connection to the next.
use woody.Shared.{◌≡◌, refl, ap, ap₂, ◌∙◌, Bool, true, List, [], ◌∷◌, ◌++◌}
use woody.Base.StringMap.{Bytes, StringMap}
use woody.Http.Request.{clean_up}
use woody.Http.Codec.{
  ParserCallback, message_begin, headers_complete, message_complete, parse_header_begin, HttpCodec,
  CodecStep, on_message_begin, on_headers_complete, on_message_complete, on_callbacks,
}
use woody.Http.Codec.Headers.{
  Pieces, calls, whole, full_name, full_value, insert_all, last_header, all_but_last, with_headers,
  in_value, following, first_header, headers_received,
}

-- A request without a body.
abbrev pub request_calls : Pieces → List Pieces → Bytes → Bool → List ParserCallback
request_calls h hs method upgrade =
    message_begin ∷ calls (h ∷ hs) (headers_complete method upgrade ∷ message_complete ∷ [])

-- What the next request finds.
pub record IsBehind (name : Bytes) (c : HttpCodec) : Type 0 where
  pub held_name : c.cur_header_name ≡ name
  pub no_headers : c.request.headers_map ≡ []

end_of_request :
    (method : Bytes) (upgrade : Bool) (n v : Bytes) (c : HttpCodec)
    → c.has_message_complete ≡ true
    → IsBehind n
        (on_callbacks
          (headers_complete method upgrade ∷ message_complete ∷ [])
          (in_value n v c)).codec
unfolding on_callbacks on_headers_complete on_message_complete clean_up
end_of_request method upgrade n v c e = record { held_name = rw e refl; no_headers = rw e refl }

abbrev begun : HttpCodec → HttpCodec
begun c = record c { parse_state = parse_header_begin }

on_callbacks_begin :
    (ks : List ParserCallback) (c : HttpCodec)
    → (on_callbacks (message_begin ∷ ks) c).codec ≡ (on_callbacks ks (begun c)).codec
unfolding on_callbacks on_message_begin
on_callbacks_begin ks c = refl

-- The codec behind the headers of a request.
request_headers :
    (h : Pieces) (hs : List Pieces) (ks : List ParserCallback) (c : HttpCodec)
    → (on_callbacks (message_begin ∷ calls (h ∷ hs) ks) c).codec
      ≡ (on_callbacks ks (
          in_value
            (last_header (c.cur_header_name ++ full_name h, full_value h) (whole hs)).0
            (last_header (c.cur_header_name ++ full_name h, full_value h) (whole hs)).1
            (with_headers
              (all_but_last
                (c.cur_header_name ++ full_name h, full_value h)
                (whole hs)
                c.request.headers_map)
              (begun c)))).codec
request_headers h hs ks c =
    on_callbacks_begin (calls (h ∷ hs) ks) c
    ∙ ap (λ (s : CodecStep). s.codec)
        (first_header h hs ks (begun c) refl
          ∙ following hs (c.cur_header_name ++ full_name h) (full_value h) ks (begun c))

-- Behind a request the codec holds no headers, and the name of the last one.
pub request_calls-IsBehind :
    (h : Pieces) (hs : List Pieces) (method : Bytes) (upgrade : Bool) (c : HttpCodec)
    → c.has_message_complete ≡ true
    → IsBehind
        (last_header (c.cur_header_name ++ full_name h, full_value h) (whole hs)).0
        (on_callbacks (request_calls h hs method upgrade) c).codec
request_calls-IsBehind h hs method upgrade c e =
    let tail : List ParserCallback = headers_complete method upgrade ∷ message_complete ∷ [] in
    let p : Bytes × Bytes = (c.cur_header_name ++ full_name h, full_value h) in
    let d : HttpCodec = with_headers (all_but_last p (whole hs) c.request.headers_map) (begun c) in
    rw (request_headers h hs tail c)
      (end_of_request method upgrade (last_header p (whole hs)).0 (last_header p (whole hs)).1 d e)

next_headers :
    (n : Bytes) (h : Pieces) (hs : List Pieces) (method : Bytes) (upgrade : Bool) (c : HttpCodec)
    → IsBehind n c
    → (on_callbacks
        (message_begin ∷ calls (h ∷ hs) (headers_complete method upgrade ∷ []))
        c).codec.request.headers_map
      ≡ insert_all ((n ++ full_name h, full_value h) ∷ whole hs) []
next_headers n h hs method upgrade c b =
    let ks : List ParserCallback = calls (h ∷ hs) (headers_complete method upgrade ∷ []) in
    ap (λ (d : HttpCodec). d.request.headers_map) (on_callbacks_begin ks c)
    ∙ headers_received h hs method upgrade (begun c) refl
    ∙ ap₂
        (λ (name : Bytes) (m : StringMap).
          insert_all ((name ++ full_name h, full_value h) ∷ whole hs) m)
        b.held_name b.no_headers

-- A codec with a callback for complete messages, which holds no name, gets a request with headers
-- and without a body, and after it another request with headers. The headers of the second request
-- are then its own, but the name of its first header stands behind the name of the last header of
-- the first request.
pub second_request :
    (h : Pieces) (hs : List Pieces) (method : Bytes) (upgrade : Bool) (h' : Pieces)
    (hs' : List Pieces) (method' : Bytes) (upgrade' : Bool) (c : HttpCodec)
    → c.has_message_complete ≡ true
    → c.cur_header_name ≡ []
    → (on_callbacks
        (message_begin ∷ calls (h' ∷ hs') (headers_complete method' upgrade' ∷ []))
        (on_callbacks (request_calls h hs method upgrade) c).codec).codec.request.headers_map
      ≡ insert_all
          (((last_header (full_name h, full_value h) (whole hs)).0 ++ full_name h', full_value h')
            ∷ whole hs')
          []
second_request h hs method upgrade h' hs' method' upgrade' c e empty =
    next_headers (last_header (c.cur_header_name ++ full_name h, full_value h) (whole hs)).0 h' hs'
      method' upgrade' (on_callbacks (request_calls h hs method upgrade) c).codec
      (request_calls-IsBehind h hs method upgrade c e)
    ∙ ap
        (λ (n : Bytes).
          insert_all
            ((
              (last_header (n ++ full_name h, full_value h) (whole hs)).0 ++ full_name h',
              full_value h',
            )
              ∷ whole hs')
            [])
        empty
