-- ===== src/Http/Handler/Session/Last.antt =====
-- The read that brings the end of a request, behind reads that may have brought its beginning.
use woody.Shared.{
  ℕ, ◌≡◌, refl, sym, ap, ap₂, ◌∙◌, Bool, true, false, some, List, [], ◌∷◌, ◌++◌, append-nil, All,
  map, if◌then◌else◌,
}
use woody.Base.StringMap.{Bytes}
use woody.Net.Buffer.{Buffer}
use woody.Net.Loop.{finished}
use woody.Net.Loop.Reads.{served}
use woody.Http.Codec.{
  ParserCallback, message_begin, url, header_field, header_value, headers_complete, body,
  message_complete, ParserRun, HttpCodec, CodecStep, on_begin, on_headers, on_callback,
  on_callbacks, on_message_begin, on_url, on_header_field, on_header_value, on_headers_complete,
  on_body,
}
use woody.Http.Codec.Sequence.{Message, runs, Held, requests_of, request_of, IsHolding, held_at_end}
use woody.Http.Codec.Sequence.Announced.{on_callbacks-runs}
use woody.Http.Handler.{
  HandlerAction, request_complete, handle_event, handle_events, http_handler_on_data,
}
use woody.Http.Handler.Session.{
  TakesAll, all_callbacks, parser_behind, http_reads, on_callbacks_append, handle_events_append,
  handle_announcements, one_read, http_reads_lem,
}

-- A call of the parser that does not end a request.
abbrev pub IsInside : ParserCallback → Type 0
IsInside message_begin = Unit
IsInside (url s) = Unit
IsInside (header_field s) = Unit
IsInside (header_value s) = Unit
IsInside (headers_complete method upgrade) = Unit
IsInside (body s) = Unit
IsInside message_complete = ⊥

no_action_begin : (b : Bool) (id : ℕ) → handle_events (if b then on_begin id ∷ [] else []) ≡ []
unfolding handle_event
no_action_begin true id = refl
no_action_begin false id = refl

no_action_headers : (b : Bool) → handle_events (if b then on_headers ∷ [] else []) ≡ []
unfolding handle_event
no_action_headers true = refl
no_action_headers false = refl

no_action :
    (k : ParserCallback) (c : HttpCodec) → IsInside k → handle_events (on_callback k c).events ≡ []
unfolding on_message_begin on_url on_header_field on_header_value on_headers_complete on_body
no_action message_begin c h = no_action_begin c.has_message_begin c.cur_stream_id
no_action (url s) c h = refl
no_action (header_field s) c h = refl
no_action (header_value s) c h = refl
no_action (headers_complete method upgrade) c h = no_action_headers c.has_headers_complete
no_action (body s) c h = refl
no_action message_complete c h = absurd h

no_actions :
    (ks : List ParserCallback) (c : HttpCodec)
    → All IsInside ks
    → handle_events (on_callbacks ks c).events ≡ []
unfolding on_callbacks
no_actions [] c h = refl
no_actions (k ∷ ks) c h =
    let a = on_callback k c in
    handle_events_append a.events (on_callbacks ks a.codec).events
    ∙ ap₂ (λ (xs ys : List HandlerAction). xs ++ ys) (no_action k c h.0) (no_actions ks a.codec h.1)

-- What the handler does for the requests of a connection, from a codec between two requests.
pub request_actions :
    (qs : List Message) (held : Held) (c : HttpCodec)
    → IsHolding held c
    → handle_events (on_callbacks (runs qs) c).events ≡ map request_complete (requests_of qs held)
request_actions qs held c h =
    ap handle_events (on_callbacks-runs qs held c h).0
    ∙ handle_announcements c.cur_stream_id (requests_of qs held)

-- Behind a part of a request, the rest of it makes the handler hand it over.
rest_actions :
    (q : Message) (held : Held) (part rest : List ParserCallback) (c : HttpCodec)
    → IsHolding held c
    → All IsInside part
    → part ++ rest ≡ runs (q ∷ [])
    → handle_events (on_callbacks rest (on_callbacks part c).codec).events
      ≡ request_complete (request_of q held) ∷ []
rest_actions q held part rest c h inside e =
    let first = on_callbacks part c in
    let second = on_callbacks rest first.codec in
    ap (λ (xs : List HandlerAction). xs ++ handle_events second.events)
      (sym (no_actions part c inside))
    ∙ sym (handle_events_append first.events second.events)
    ∙ ap (λ (d : CodecStep). handle_events d.events) (sym (on_callbacks_append part rest c))
    ∙ ap (λ (ks : List ParserCallback). handle_events (on_callbacks ks c).events) e
    ∙ request_actions (q ∷ []) held c h
    ∙ unfold requests_of in refl

module _ {P : Type 0} (m : Buffer) (execute : P → Bytes → ParserRun P) where
  open m use {Buf, readable}

  -- Requests and a part of one more: the handler hands over the requests.
  reads_part :
      (bs : List Buf) (qs : List Message) (part : List ParserCallback) (held : Held) (p : P)
      (c : HttpCodec)
      → TakesAll m execute bs p
      → all_callbacks m execute bs p ≡ runs qs ++ part
      → All IsInside part
      → IsHolding held c
      → http_reads m execute bs (p, c)
        ≡ some (
            served
              (
                parser_behind m execute bs p,
                (on_callbacks part (on_callbacks (runs qs) c).codec).codec,
              )
              (map request_complete (requests_of qs held)))
  reads_part bs qs part held p c takes calls inside h =
      let p' = parser_behind m execute bs p in
      let c1 = (on_callbacks (runs qs) c).codec in
      let c2 = (on_callbacks part c1).codec in
      http_reads_lem m execute bs p c takes
      ∙ ap
          (λ (ks : List ParserCallback).
            some
              (served (p', (on_callbacks ks c).codec) (handle_events (on_callbacks ks c).events)))
          calls
      ∙ ap (λ (d : CodecStep). some (served (p', d.codec) (handle_events d.events)))
          (on_callbacks_append (runs qs) part c)
      ∙ ap (λ (as' : List HandlerAction). some (served (p', c2) as'))
          (handle_events_append (on_callbacks (runs qs) c).events (on_callbacks part c1).events
            ∙ ap₂ (λ (xs ys : List HandlerAction). xs ++ ys) (request_actions qs held c h)
                (no_actions part c1 inside)
            ∙ append-nil (map request_complete (requests_of qs held)))

  -- The reads bring whole requests and the beginning of one more, and then one read brings the rest
  -- of it.
  pub record IsCompleted (qs : List Message) (q : Message) (held : Held) (bs : List Buf) (b : Buf)
      (s : P × HttpCodec) : Type 0 where
    pub between : P × HttpCodec
    pub buffer : Buf
    pub behind : P × HttpCodec
    pub before :
        http_reads m execute bs s
        ≡ some (served between (map request_complete (requests_of qs held)))
    pub last :
        http_handler_on_data m execute b between
        ≡ finished buffer behind (request_complete (request_of q (held_at_end qs held)) ∷ [])

  pub http_reads-IsCompleted :
      (bs : List Buf) (b : Buf) (qs : List Message) (q : Message) (part : List ParserCallback)
      (held : Held) (p : P) (c : HttpCodec)
      → TakesAll m execute bs p
      → TakesAll m execute (b ∷ []) (parser_behind m execute bs p)
      → all_callbacks m execute bs p ≡ runs qs ++ part
      → All IsInside part
      → part ++ all_callbacks m execute (b ∷ []) (parser_behind m execute bs p) ≡ runs (q ∷ [])
      → IsHolding held c
      → IsCompleted qs q held bs b (p, c)
  http_reads-IsCompleted bs b qs q part held p c takes (full, all, well, _) calls inside rest h =
      let p' = parser_behind m execute bs p in
      let c1 = (on_callbacks (runs qs) c).codec in
      let c2 = (on_callbacks part c1).codec in
      let run = execute p' (readable b) in
      let (b', e) = one_read m execute b p' c2 full all well in
      record {
        between = (p', c2);
        buffer = b';
        behind = (run.parser, (on_callbacks run.callbacks c2).codec);
        before = reads_part bs qs part held p c takes calls inside h;
        last =
            e
            ∙ ap
                (λ (as' : List HandlerAction).
                  finished b' (run.parser, (on_callbacks run.callbacks c2).codec) as')
                (rest_actions q (held_at_end qs held) part run.callbacks c1
                  (on_callbacks-runs qs held c h).1 inside
                  (ap (λ (ks : List ParserCallback). part ++ ks) (sym (append-nil run.callbacks))
                    ∙ rest));
      }
