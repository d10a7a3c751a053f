-- ===== src/Http/Codec/Headers.antt =====
-- Headers that the parser reports in pieces: `on_header_field` and `on_header_value` may each be
-- called any number of times for one header.
use woody.Shared.{◌≡◌, refl, ap, ◌∙◌, Bool, true, false, List, [], ◌∷◌, ◌++◌, append_assoc, map}
use woody.Base.StringMap.{Bytes, StringMap, insert}
use woody.Http.Request.{HttpRequest, add_header, set_method, parse_url}
use woody.Http.Request.Params.{parse_url_total}
use woody.Http.Codec.{
  ParserCallback, header_field, header_value, headers_complete, parse_header_begin,
  parse_header_name, parse_header_value, HttpCodec, CodecStep, on_header_field, on_header_value,
  parsed, on_headers_complete, on_callbacks,
}

-- A header in pieces: one piece at least of the name, and of the value.
pub record Pieces : Type 0 where
  pub name : Bytes
  pub names : List Bytes
  pub value : Bytes
  pub values : List Bytes

unfoldable pub join : Bytes → List Bytes → Bytes
join s [] = s
join s (t ∷ ts) = join (s ++ t) ts

join_prefix : (a b : Bytes) (ts : List Bytes) → join (a ++ b) ts ≡ a ++ join b ts
unfolding join
join_prefix a b [] = refl
join_prefix a b (t ∷ ts) =
    ap (λ (s : Bytes). join s ts) (append_assoc a b t) ∙ join_prefix a (b ++ t) ts

abbrev pub full_name : Pieces → Bytes
full_name h = join h.name h.names

abbrev pub full_value : Pieces → Bytes
full_value h = join h.value h.values

-- The parser's calls for headers, in front of other calls.
unfoldable pub calls : List Pieces → List ParserCallback → List ParserCallback
calls [] ks = ks
calls (h ∷ hs) ks =
    header_field h.name
    ∷ (map header_field h.names
        ++ (header_value h.value ∷ (map header_value h.values ++ calls hs ks)))

unfoldable pub insert_all : List (Bytes × Bytes) → StringMap → StringMap
insert_all [] m = m
insert_all ((k, v) ∷ ps) m = insert_all ps (insert k v m)

abbrev pub whole : List Pieces → List (Bytes × Bytes)
whole [] = []
whole (h ∷ hs) = (full_name h, full_value h) ∷ whole hs

-- The codec inside a name, and inside a value.
abbrev in_name : Bytes → HttpCodec → HttpCodec
in_name s c = record c { parse_state = parse_header_name; cur_header_name = s }

abbrev pub in_value : Bytes → Bytes → HttpCodec → HttpCodec
in_value s v c = record c {
  parse_state = parse_header_value;
  cur_header_name = s;
  cur_header_value = v;
}

more_names :
    (ss : List Bytes) (s : Bytes) (ks : List ParserCallback) (c : HttpCodec)
    → on_callbacks (map header_field ss ++ ks) (in_name s c)
      ≡ on_callbacks ks (in_name (join s ss) c)
unfolding on_callbacks on_header_field join
more_names [] s ks c = refl
more_names (t ∷ ss) s ks c = more_names ss (s ++ t) ks c

more_values :
    (vs : List Bytes) (s v : Bytes) (ks : List ParserCallback) (c : HttpCodec)
    → on_callbacks (map header_value vs ++ ks) (in_value s v c)
      ≡ on_callbacks ks (in_value s (join v vs) c)
unfolding on_callbacks on_header_value join
more_values [] s v ks c = refl
more_values (t ∷ vs) s v ks c = more_values vs s (v ++ t) ks c

-- The pieces of one header, behind the first piece of its name.
rest_of_header :
    (ss : List Bytes) (s v : Bytes) (vs : List Bytes) (ks : List ParserCallback) (c : HttpCodec)
    → on_callbacks
        (map header_field ss ++ (header_value v ∷ (map header_value vs ++ ks)))
        (in_name s c)
      ≡ on_callbacks ks (in_value (join s ss) (join v vs) c)
rest_of_header ss s v vs ks c =
    more_names ss s (header_value v ∷ (map header_value vs ++ ks)) c
    ∙ unfold on_callbacks on_header_value in more_values vs (join s ss) v ks c

-- The headers that follow the first: each one adds the one before it to the request.
unfoldable pub last_header : Bytes × Bytes → List (Bytes × Bytes) → Bytes × Bytes
last_header p [] = p
last_header p (q ∷ ps) = last_header q ps

abbrev pub with_headers : StringMap → HttpCodec → HttpCodec
with_headers m c = record c { request = record (c.request) { headers_map = m } }

unfoldable pub all_but_last : Bytes × Bytes → List (Bytes × Bytes) → StringMap → StringMap
all_but_last p [] m = m
all_but_last (k, v) (q ∷ ps) m = all_but_last q ps (insert k v m)

one_header :
    (h : Pieces) (hs : List Pieces) (n v : Bytes) (ks : List ParserCallback) (c : HttpCodec)
    → on_callbacks (calls (h ∷ hs) ks) (in_value n v c)
      ≡ on_callbacks (calls hs ks) (
          in_value (full_name h) (full_value h) (with_headers (insert n v c.request.headers_map) c))
unfolding calls on_callbacks on_header_field add_header
one_header h hs n v ks c =
    rest_of_header h.names h.name h.value h.values (calls hs ks)
      (with_headers (insert n v c.request.headers_map) (in_value n v c))

pub following :
    (hs : List Pieces) (n v : Bytes) (ks : List ParserCallback) (c : HttpCodec)
    → on_callbacks (calls hs ks) (in_value n v c)
      ≡ on_callbacks ks (
          in_value
            (last_header (n, v) (whole hs)).0
            (last_header (n, v) (whole hs)).1
            (with_headers (all_but_last (n, v) (whole hs) c.request.headers_map) c))
unfolding last_header all_but_last
following [] n v ks c = unfold calls in refl
following (h ∷ hs) n v ks c =
    one_header h hs n v ks c
    ∙ following hs (full_name h) (full_value h) ks
        (with_headers (insert n v c.request.headers_map) c)

-- The first header of a request: the name goes behind what the codec still holds of a name.
pub first_header :
    (h : Pieces) (hs : List Pieces) (ks : List ParserCallback) (c : HttpCodec)
    → c.parse_state ≡ parse_header_begin
    → on_callbacks (calls (h ∷ hs) ks) c
      ≡ on_callbacks (calls hs ks) (in_value (c.cur_header_name ++ full_name h) (full_value h) c)
unfolding calls on_callbacks on_header_field
first_header h hs ks c e = rw e (
    rest_of_header h.names (c.cur_header_name ++ h.name) h.value h.values (calls hs ks) c
    ∙ ap (λ (s : Bytes). on_callbacks (calls hs ks) (in_value s (full_value h) c))
        (join_prefix c.cur_header_name h.name h.names))

pub insert_last :
    (p : Bytes × Bytes) (ps : List (Bytes × Bytes)) (m : StringMap)
    → insert (last_header p ps).0 (last_header p ps).1 (all_but_last p ps m) ≡ insert_all (p ∷ ps) m
unfolding last_header all_but_last insert_all
insert_last (k, v) [] m = refl
insert_last (k, v) (q ∷ ps) m = insert_last q ps (insert k v m)

parsed_headers : (r : HttpRequest) → (parsed (parse_url r) r).headers_map ≡ r.headers_map
parsed_headers r = let (m, e) = parse_url_total r in rw e refl

complete_headers :
    (method : Bytes) (upgrade : Bool) (n v : Bytes) (c : HttpCodec)
    → (on_callbacks
        (headers_complete method upgrade ∷ [])
        (in_value n v c)).codec.request.headers_map
      ≡ insert n v c.request.headers_map
unfolding on_callbacks on_headers_complete add_header
complete_headers method true n v c = parsed_headers (set_method method (add_header n v c.request))
complete_headers method false n v c = parsed_headers (set_method method (add_header n v c.request))

-- A codec at the beginning of a request gets any number of headers but none, each in any number of
-- pieces: behind `OnHeadersComplete` the request's headers are the joined headers, inserted in
-- their order, where the first header's name stands behind the name that the codec holds from
-- before.
pub headers_received :
    (h : Pieces) (hs : List Pieces) (method : Bytes) (upgrade : Bool) (c : HttpCodec)
    → c.parse_state ≡ parse_header_begin
    → (on_callbacks
        (calls (h ∷ hs) (headers_complete method upgrade ∷ []))
        c).codec.request.headers_map
      ≡ insert_all
          ((c.cur_header_name ++ full_name h, full_value h) ∷ whole hs)
          c.request.headers_map
headers_received h hs method upgrade c e =
    let n : Bytes = c.cur_header_name ++ full_name h in
    let p : Bytes × Bytes = (n, full_value h) in
    ap (λ (s : CodecStep). s.codec.request.headers_map)
      (first_header h hs (headers_complete method upgrade ∷ []) c e
        ∙ following hs n (full_value h) (headers_complete method upgrade ∷ []) c)
    ∙ complete_headers method upgrade (last_header p (whole hs)).0 (last_header p (whole hs)).1
        (with_headers (all_but_last p (whole hs) c.request.headers_map) c)
    ∙ insert_last p (whole hs) c.request.headers_map
