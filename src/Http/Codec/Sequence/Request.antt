-- ===== src/Http/Codec/Sequence/Request.antt =====
-- One whole request.
use woody.Shared.{◌≡◌, refl, ap, ◌∙◌, Bool, true, false, List, [], ◌∷◌, ◌++◌, map}
use woody.Base.StringMap.{Bytes}
use woody.Http.Request.{HttpRequest, new_request, set_url, set_body, clean_up}
use woody.Http.Codec.{
  ParserCallback, message_begin, url, headers_complete, body, message_complete, parse_header_begin,
  HttpCodec, CodecStep, step, on_begin, on_complete, on_message_begin, on_message_complete,
  on_callbacks,
}
use woody.Http.Codec.Headers.{calls, whole, insert_all}
use woody.Http.Codec.Sequence.{
  Message, run, Held, last_of, named, request_of, held_after, IsHolding,
}
use woody.Http.Codec.Sequence.Steps.{
  with_request, url_pieces, body_pieces, complete_request_body, headed, completed, headers_lem,
}

abbrev holding : Held → HttpCodec → HttpCodec
holding held c = record c {
  cur_header_name = held.name;
  cur_header_value = held.value;
  request = record new_request { body = held.body };
  has_message_begin = true;
  has_message_complete = true;
  has_headers_complete = false;
}

pub holding_lem : (held : Held) (c : HttpCodec) → IsHolding held c → c ≡ holding held c
holding_lem held c h =
    let flags : HttpCodec → HttpCodec = λ d. record d {
      has_message_begin = true;
      has_message_complete = true;
      has_headers_complete = false;
    } in
    ap (λ (b : Bool). record c { has_message_begin = b }) h.announces_begin
    ∙ ap (λ (b : Bool). record c { has_message_begin = true; has_message_complete = b }) h.announces
    ∙ ap
        (λ (b : Bool). record c {
          has_message_begin = true;
          has_message_complete = true;
          has_headers_complete = b;
        })
        h.no_headers_callback
    ∙ ap (λ (s : Bytes). flags (record c { cur_header_name = s })) h.held_name
    ∙ ap (λ (s : Bytes). flags (record c { cur_header_name = held.name; cur_header_value = s }))
        h.held_value
    ∙ ap
        (λ (r : HttpRequest).
          flags
            (record c { cur_header_name = held.name; cur_header_value = held.value; request = r }))
        h.held_request

abbrev begun : HttpCodec → HttpCodec
begun c = record c { parse_state = parse_header_begin }

begin_lem :
    (ks : List ParserCallback) (held : Held) (c : HttpCodec)
    → on_callbacks (message_begin ∷ ks) (holding held c)
      ≡ step
          (on_callbacks ks (begun (holding held c))).codec
          (on_begin c.cur_stream_id ∷ (on_callbacks ks (begun (holding held c))).events)
unfolding on_callbacks on_message_begin
begin_lem ks held c = refl

complete_lem :
    (ks : List ParserCallback) (c : HttpCodec)
    → c.has_message_complete ≡ true
    → on_callbacks (message_complete ∷ ks) c
      ≡ step
          (on_callbacks ks (with_request (record new_request { body = c.request.body }) c)).codec
          (on_complete c.cur_stream_id c.request
            ∷ (on_callbacks ks
                (with_request (record new_request { body = c.request.body }) c)).events)
unfolding on_callbacks on_message_complete clean_up
complete_lem ks c e = rw e refl

-- One request, on a codec that holds something.
module _ (q : Message) (held : Held) (c : HttpCodec) where
  -- Behind the url, behind the headers, behind the body.
  abbrev behind_url : HttpCodec
  behind_url =
      let b = begun (holding held c) in with_request (set_url (last_of q.urls []) b.request) b

  abbrev behind_headers : HttpCodec
  behind_headers = completed q.headers q.method q.upgrade behind_url

  abbrev behind_body : HttpCodec
  behind_body = with_request (request_of q held) behind_headers

  pieces_lem :
      (ks : List ParserCallback)
      → on_callbacks
          (map url q.urls
            ++ calls q.headers (
                headers_complete q.method q.upgrade
                ∷ (map body q.bodies ++ (message_complete ∷ ks))))
          (begun (holding held c))
        ≡ on_callbacks (message_complete ∷ ks) behind_body
  pieces_lem ks =
      let tail : List ParserCallback = map body q.bodies ++ (message_complete ∷ ks) in
      url_pieces q.urls (calls q.headers (headers_complete q.method q.upgrade ∷ tail))
        (begun (holding held c))
      ∙ headers_lem q.headers q.method q.upgrade tail behind_url refl refl
      ∙ body_pieces q.bodies (message_complete ∷ ks) behind_headers
      ∙ ap
          (λ (s : Bytes).
            on_callbacks (message_complete ∷ ks)
              (with_request (set_body (last_of q.bodies s) behind_headers.request) behind_headers))
          (complete_request_body q.method q.upgrade
            (headed (insert_all (named held (whole q.headers)) []) behind_url.request))

  -- Between this request and the next.
  abbrev pub behind_run : HttpCodec
  behind_run = with_request (record new_request { body = (request_of q held).body }) behind_body

  pub behind_run-IsHolding : IsHolding (held_after q held) behind_run
  behind_run-IsHolding = record {
    held_name = refl;
    held_value = refl;
    held_request = refl;
    announces_begin = refl;
    announces = refl;
    no_headers_callback = refl;
  }

  pub run_lem :
      (ks : List ParserCallback)
      → on_callbacks (run q ks) (holding held c)
        ≡ step (on_callbacks ks behind_run).codec (
            on_begin c.cur_stream_id
            ∷ on_complete c.cur_stream_id (request_of q held)
            ∷ (on_callbacks ks behind_run).events)
  unfolding run
  run_lem ks =
      begin_lem _ held c
      ∙ ap (λ (s : CodecStep). step s.codec (on_begin c.cur_stream_id ∷ s.events))
          (pieces_lem ks ∙ complete_lem ks behind_body refl)
