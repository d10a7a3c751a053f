-- ===== src/Http/Service.antt =====
-- A client's first request on a connection, from the reads to what an application finds in it.
use woody.Shared.{
  ◌≡◌, refl, sym, ap, ap₂, ◌∙◌, Bool, true, false, Option, none, some, List, [], ◌∷◌, ◌++◌, All,
  if◌then◌else◌,
}
use woody.Base.StringMap.{Bytes, StringMap, find}
use woody.Net.Buffer.{Buffer}
use woody.Net.Loop.Reads.{served}
use woody.Http.Request.{
  HttpRequest, new_request, set_body, set_upgrade, found, get_header, get_get_params, is_question,
}
use woody.Http.Request.Params.{query, assign_all, IsParam}
use woody.Http.Request.Query.{parse_url-query, last_value, find-assign_all}
use woody.Http.Codec.{on_callbacks, HttpCodec, ParserRun, parsed}
use woody.Http.Codec.HeaderMap.{first_value, find-insert_all, insert_all-determined}
use woody.Http.Codec.Headers.{Pieces, whole, insert_all}
use woody.Http.Codec.Sequence.Announced.{on_callbacks-runs}
use woody.Http.Codec.Sequence.{
  IsHolding, announcements, complete_request, Message, runs, Held, last_of, request_of, requests_of,
}
use woody.Http.Handler.{request_complete, handler_codec}
use woody.Http.Handler.Session.{TakesAll, all_callbacks, http_reads, http_reads-IsSession}

-- A body has one piece, and an empty one none.
abbrev pub body_pieces : Bytes → List Bytes
body_pieces [] = []
body_pieces (c ∷ s) = (c ∷ s) ∷ []

last_of-body_pieces : (s : Bytes) → last_of (body_pieces s) [] ≡ s
last_of-body_pieces [] = refl
last_of-body_pieces (c ∷ s) = refl

-- What a client sends: the url is a path and a query string.
pub record ClientRequest : Type 0 where
  pub method : Bytes
  pub path : Bytes
  pub params : List (Bytes × Bytes)
  pub first : Pieces
  pub headers : List Pieces
  pub body : Bytes
  pub upgrade : Bool

abbrev pub url_of : ClientRequest → Bytes
url_of x = x.path ++ (b'?' ∷ query x.params)

-- The request as the parser may report it: the headers in any number of pieces.
abbrev pub message_of : ClientRequest → Message
message_of x = record {
  urls = url_of x ∷ [];
  headers = x.first ∷ x.headers;
  method = x.method;
  upgrade = x.upgrade;
  bodies = body_pieces x.body;
}

abbrev pub nothing_held : Held
nothing_held = record { name = []; value = []; body = [] }

request_of-headers :
    (q : Message) (h h' : Pieces) (hs hs' : List Pieces)
    → ((i : Bytes) → first_value i (whole (h ∷ hs)) ≡ first_value i (whole (h' ∷ hs')))
    → request_of (record q { headers = h ∷ hs }) nothing_held
      ≡ request_of (record q { headers = h' ∷ hs' }) nothing_held
request_of-headers q h h' hs hs' same =
    ap
      (λ (m : StringMap). set_body (last_of q.bodies []) (
        complete_request q.method q.upgrade
          (record new_request { url = last_of q.urls []; headers_map = m })))
      (insert_all-determined (whole (h ∷ hs)) (whole (h' ∷ hs')) same)

handler_codec-IsHolding : IsHolding nothing_held handler_codec
handler_codec-IsHolding = record {
  held_name = refl;
  held_value = refl;
  held_request = refl;
  announces_begin = refl;
  announces = refl;
  no_headers_callback = refl;
}

announced_once :
    (q : Message)
    → (on_callbacks (runs (q ∷ [])) handler_codec).events
      ≡ announcements 0 (request_of q nothing_held ∷ [])
announced_once q =
    (on_callbacks-runs (q ∷ []) nothing_held handler_codec handler_codec-IsHolding).0
    ∙ unfold requests_of in refl

-- Two first requests on a connection, of one header at least, that differ in nothing but the order
-- of their headers, the pieces that the parser reports them in and the values behind the first one
-- under a name: the codec of a new handler announces the same for both.
pub on_callbacks_reordered :
    (q : Message) (h h' : Pieces) (hs hs' : List Pieces)
    → ((i : Bytes) → first_value i (whole (h ∷ hs)) ≡ first_value i (whole (h' ∷ hs')))
    → (on_callbacks (runs (record q { headers = h ∷ hs } ∷ [])) handler_codec).events
      ≡ (on_callbacks (runs (record q { headers = h' ∷ hs' } ∷ [])) handler_codec).events
on_callbacks_reordered q h h' hs hs' same =
    announced_once (record q { headers = h ∷ hs })
    ∙ ap (λ (r : HttpRequest). announcements 0 (r ∷ [])) (request_of-headers q h h' hs hs' same)
    ∙ sym (announced_once (record q { headers = h' ∷ hs' }))

-- What an application finds in a request under a name.
pub record IsFound (x : ClientRequest) (name value : Bytes) (req : HttpRequest) : Type 0 where
  pub same_method : req.method ≡ x.method
  pub same_url : req.url ≡ url_of x
  pub same_body : req.body ≡ x.body
  pub finds_header :
      get_header name value req ≡ found (first_value name (whole (x.first ∷ x.headers))) value
  pub finds_param : get_get_params name value req ≡ found (last_value name x.params none) value
  pub same_upgrade : req.is_upgrade ≡ x.upgrade

abbrev base : ClientRequest → HttpRequest
base x = record new_request {
  method = x.method;
  url = url_of x;
  headers_map = insert_all (whole (x.first ∷ x.headers)) [];
  method_get_params = assign_all x.params [];
  body = x.body;
}

set_body-upgrade :
    (s : Bytes) (u : Bool) (q : HttpRequest)
    → set_body s (if u then set_upgrade q else q)
      ≡ (if u then set_upgrade (set_body s q) else set_body s q)
set_body-upgrade s true q = refl
set_body-upgrade s false q = refl

request_of_lem :
    (x : ClientRequest)
    → All (λ c. is_question c ≡ false) x.path
    → All IsParam x.params
    → request_of (message_of x) nothing_held ≡ (if x.upgrade then set_upgrade (base x) else base x)
request_of_lem x path_ok params_ok =
    let r : HttpRequest = record new_request {
      method = x.method;
      url = url_of x;
      headers_map = insert_all (whole (x.first ∷ x.headers)) [];
    } in
    ap₂
      (λ (o : Option HttpRequest) (s : Bytes).
        set_body s (if x.upgrade then set_upgrade (parsed o r) else parsed o r))
      (parse_url-query x.path x.params r path_ok params_ok refl) (last_of-body_pieces x.body)
    ∙ set_body-upgrade x.body x.upgrade (record r { method_get_params = assign_all x.params [] })

module _ (x : ClientRequest) (name value : Bytes) where
  finds_header_lem :
      get_header name value (base x) ≡ found (first_value name (whole (x.first ∷ x.headers))) value
  unfolding get_header
  finds_header_lem =
      ap (λ (o : Option Bytes). found o value)
        (find-insert_all name (whole (x.first ∷ x.headers)) [] tt ∙ unfold find in refl)

  finds_param_lem : get_get_params name value (base x) ≡ found (last_value name x.params none) value
  unfolding get_get_params
  finds_param_lem =
      ap (λ (o : Option Bytes). found o value)
        (find-assign_all name x.params [] tt ∙ unfold find in refl)

  base-IsFound :
      (u : Bool) → x.upgrade ≡ u → IsFound x name value (if u then set_upgrade (base x) else base x)
  unfolding get_header get_get_params
  base-IsFound true e = record {
    same_method = refl;
    same_url = refl;
    same_body = refl;
    finds_header = finds_header_lem;
    finds_param = finds_param_lem;
    same_upgrade = sym e;
  }
  base-IsFound false e = record {
    same_method = refl;
    same_url = refl;
    same_body = refl;
    finds_header = finds_header_lem;
    finds_param = finds_param_lem;
    same_upgrade = sym e;
  }

module _ {P : Type 0} (m : Buffer) (execute : P → Bytes → ParserRun P) where
  -- A client's first request on a connection has a url of a path with no '?', a '?' and the query
  -- string of parameters whose names have no '=' and whose values have no '&' and no blank, one
  -- header at least, and any body. It comes in any number of reads, each of which the request parser
  -- takes whole and without an error, and the parser reports the url and the body, if it has one, in
  -- one piece, and each header in any number of pieces. Then the handler hands exactly one request to
  -- the server. In it an application finds the client's method, url and body, under any name the
  -- first value that the client's headers have for it and the last one that the parameters have, and
  -- whether it asks for an upgrade.
  pub http_reads-IsFound :
      (x : ClientRequest) (bs : List m.Buf) (p : P) (name value : Bytes)
      → All (λ c. is_question c ≡ false) x.path
      → All IsParam x.params
      → TakesAll m execute bs p
      → all_callbacks m execute bs p ≡ runs (message_of x ∷ [])
      → (s : P × HttpCodec) × (req : HttpRequest) × (http_reads m execute bs (p, handler_codec)
          ≡ some (served s (request_complete req ∷ [])))
        × IsFound x name value req
  http_reads-IsFound x bs p name value path_ok params_ok takes calls =
      let session =
        http_reads-IsSession m execute bs (message_of x ∷ []) nothing_held p handler_codec takes
          calls handler_codec-IsHolding in
      (
        (session.parser, session.codec),
        request_of (message_of x) nothing_held,
        session.hands_over ∙ unfold requests_of in refl,
        rw (request_of_lem x path_ok params_ok) (base-IsFound x name value x.upgrade refl),
      )
