-- ===== src/Http/Handler/Session.antt =====
-- A connection's reads, as a whole: the requests that the handler hands to the server.
pub mod Last
use woody.Shared.{
  ℕ, ◌≡◌, ◌≢◌, refl, sym, ap, ◌∙◌, false, Option, some, List, [], ◌∷◌, ◌++◌, append_assoc, map,
  length,
}
use woody.Base.StringMap.{Bytes}
use woody.Net.Buffer.{Buffer}
use woody.Net.Loop.{finished}
use woody.Net.Loop.Reads.{Served, served, reads, behind_actions}
use woody.Http.Request.{HttpRequest}
use woody.Http.Codec.{
  ParserCallback, ParserRun, HttpCodec, CodecStep, step, HttpEvent, on_callback, on_callbacks,
  on_data,
}
use woody.Http.Codec.Sequence.{
  Message, runs, Held, requests_of, IsHolding, announcements, held_at_end,
}
use woody.Http.Codec.Sequence.Announced.{on_callbacks-runs}
use woody.Http.Handler.{
  HandlerAction, request_complete, handle_event, handle_events, http_handler_on_data,
}
use woody.Http.Handler.Reads.{http_handler_on_data_whole}

pub on_callbacks_append :
    (ks ls : List ParserCallback) (c : HttpCodec)
    → on_callbacks (ks ++ ls) c
      ≡ step
          (on_callbacks ls (on_callbacks ks c).codec).codec
          ((on_callbacks ks c).events ++ (on_callbacks ls (on_callbacks ks c).codec).events)
unfolding on_callbacks
on_callbacks_append [] ls c = refl
on_callbacks_append (k ∷ ks) ls c =
    let a = on_callback k c in
    ap (λ (s : CodecStep). step s.codec (a.events ++ s.events)) (on_callbacks_append ks ls a.codec)
    ∙ ap (λ (es : List HttpEvent). step (on_callbacks ls (on_callbacks ks a.codec).codec).codec es)
        (sym (
          append_assoc a.events (on_callbacks ks a.codec).events
            (on_callbacks ls (on_callbacks ks a.codec).codec).events))

pub handle_events_append :
    (es fs : List HttpEvent) → handle_events (es ++ fs) ≡ handle_events es ++ handle_events fs
handle_events_append [] fs = refl
handle_events_append (e ∷ es) fs =
    ap (λ (xs : List HandlerAction). handle_event e ++ xs) (handle_events_append es fs)
    ∙ sym (append_assoc (handle_event e) (handle_events es) (handle_events fs))

pub handle_announcements :
    (id : ℕ) (rs : List HttpRequest) → handle_events (announcements id rs) ≡ map request_complete rs
unfolding handle_event
handle_announcements id [] = refl
handle_announcements id (r ∷ rs) =
    ap (λ (es : List HandlerAction). request_complete r ∷ es) (handle_announcements id rs)

module _ {P : Type 0} (m : Buffer) (execute : P → Bytes → ParserRun P) where
  open m use {Buf, readable}

  -- The parser takes the whole of every read, and none of them is empty.
  abbrev pub TakesAll : List Buf → P → Type 0
  TakesAll [] p = Unit
  TakesAll (b ∷ bs) p =
      (readable b ≢ [])
      × ((execute p (readable b)).bytes_parsed ≡ length (readable b))
      × ((execute p (readable b)).is_error ≡ false)
      × TakesAll bs (execute p (readable b)).parser

  -- What the parser calls over all the reads, and where it then stands.
  abbrev pub all_callbacks : List Buf → P → List ParserCallback
  all_callbacks [] p = []
  all_callbacks (b ∷ bs) p =
      (execute p (readable b)).callbacks ++ all_callbacks bs (execute p (readable b)).parser

  abbrev pub parser_behind : List Buf → P → P
  parser_behind [] p = p
  parser_behind (b ∷ bs) p = parser_behind bs (execute p (readable b)).parser

  unfoldable pub http_reads :
      List Buf → P × HttpCodec → Option (Served (P × HttpCodec) HandlerAction)
  http_reads bs s = reads (http_handler_on_data m execute) bs s

  -- One read: what the codec makes of the parser's callbacks.
  pub one_read :
      (b : Buf) (p : P) (c : HttpCodec)
      → readable b ≢ []
      → (execute p (readable b)).bytes_parsed ≡ length (readable b)
      → (execute p (readable b)).is_error ≡ false
      → (b' : Buf) × (http_handler_on_data m execute b (p, c)
          ≡ finished b'
              (
                (execute p (readable b)).parser,
                (on_callbacks (execute p (readable b)).callbacks c).codec,
              )
              (handle_events (on_callbacks (execute p (readable b)).callbacks c).events))
  unfolding on_data
  one_read b p c full all well =
      let (b', r, e) = http_handler_on_data_whole m execute b p c full all in (b', e ∙ rw well refl)

  pub http_reads_lem :
      (bs : List Buf) (p : P) (c : HttpCodec)
      → TakesAll bs p
      → http_reads bs (p, c)
        ≡ some (
            served
              (parser_behind bs p, (on_callbacks (all_callbacks bs p) c).codec)
              (handle_events (on_callbacks (all_callbacks bs p) c).events))
  unfolding http_reads reads
  http_reads_lem [] p c t = unfold on_callbacks in refl
  http_reads_lem (b ∷ bs) p c (full, all, well, t) =
      let run = execute p (readable b) in
      let a = on_callbacks run.callbacks c in
      let rest = on_callbacks (all_callbacks bs run.parser) a.codec in
      let (b', e) = one_read b p c full all well in
      rw (e, on_callbacks_append run.callbacks (all_callbacks bs run.parser) c)
        (ap
            (λ (o : Option (Served (P × HttpCodec) HandlerAction)).
              behind_actions (handle_events a.events) o)
            (http_reads_lem bs run.parser a.codec t)
          ∙ ap
              (λ (es : List HandlerAction).
                some (served (parser_behind bs run.parser, rest.codec) es))
              (sym (handle_events_append a.events rest.events)))

  -- What a session comes to: the requests handed to the server, in order, and nothing else.
  pub record IsSession (qs : List Message) (held : Held)
      (r : Option (Served (P × HttpCodec) HandlerAction)) : Type 0 where
    pub parser : P
    pub codec : HttpCodec
    pub hands_over : r ≡ some (served (parser, codec) (map request_complete (requests_of qs held)))
    pub holding : IsHolding (held_at_end qs held) codec

  -- However the bytes of any number of requests are cut into reads, each of which the request parser
  -- takes whole and without an error, and however the parser cuts their urls, headers and bodies into
  -- pieces: a handler between two requests hands exactly these requests to the server, in order, as
  -- `requests_of` has them, does nothing else, and stands between two requests again.
  pub http_reads-IsSession :
      (bs : List Buf) (qs : List Message) (held : Held) (p : P) (c : HttpCodec)
      → TakesAll bs p
      → all_callbacks bs p ≡ runs qs
      → IsHolding held c
      → IsSession qs held (http_reads bs (p, c))
  http_reads-IsSession bs qs held p c t calls h =
      let (events, holding) = on_callbacks-runs qs held c h in
      record {
        parser = parser_behind bs p;
        codec = (on_callbacks (runs qs) c).codec;
        hands_over =
            http_reads_lem bs p c t
            ∙ ap
                (λ (ks : List ParserCallback). some (
                  served (parser_behind bs p, (on_callbacks ks c).codec)
                    (handle_events (on_callbacks ks c).events)))
                calls
            ∙ ap
                (λ (es : List HttpEvent). some (
                  served (parser_behind bs p, (on_callbacks (runs qs) c).codec) (handle_events es)))
                events
            ∙ ap
                (λ (as' : List HandlerAction).
                  some (served (parser_behind bs p, (on_callbacks (runs qs) c).codec) as'))
                (handle_announcements c.cur_stream_id (requests_of qs held));
        holding = holding;
      }
