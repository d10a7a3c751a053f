-- ===== src/Connection/Early.antt =====
-- A client that does not wait for the answer to its handshake: the beginning of a frame comes in the
-- same read.
use woody.Shared.{
  ℕ, ◌≤◌, ◌≡◌, ◌≢◌, refl, ap, ap₂, ◌∙◌, true, false, none, some, List, [], ◌∷◌, ◌++◌, length, drop,
}
use woody.Base.StringMap.{Bytes}
use woody.Net.Buffer.{Buffer}
use woody.Net.Loop.{finished}
use woody.Http.Request.{HttpRequest}
use woody.Http.Response.{HttpResponse}
use woody.Http.Codec.{HttpCodec, ParserRun, on_callbacks, on_data}
use woody.Http.Handler.{
  HandlerAction, request_complete, force_close, handle_event, handle_events, http_handler_on_data,
}
use woody.Http.Handler.Reads.{http_handler_on_data_twice}
use woody.Websocket.Upgrade.{WebsocketHandler}
use woody.Connection.{Program, Setting, sends, by_http, Run, ran, and_run, run_actions, on_read}
use woody.Connection.Answers.{calls_of, run_actions_append}
use woody.Connection.Reads.{connection}
use woody.Connection.Upgraded.{IsUpgrade, taken, switching, run_upgrade}

module _ (x : Setting) where
  run_both :
      (req : HttpRequest) (h : WebsocketHandler) (r : HttpResponse) (k : Program)
      → IsUpgrade x req h r k
      → run_actions x (request_complete req ∷ force_close ∷ []) none
        ≡ ran
            (some (taken x h req))
            ((sends (switching x req r) ∷ calls_of x k) ++ (by_http force_close ∷ []))
  run_both req h r k u =
      run_actions_append x (request_complete req ∷ []) (force_close ∷ []) none
      ∙ ap (λ (v : Run). and_run v (λ w. run_actions x (force_close ∷ []) w))
          (run_upgrade x req h r k u)
      ∙ unfold run_actions in refl

  module _ {P : Type 0} (m : Buffer) (execute : P → Bytes → ParserRun P) where
    open m use {Buf, readable, cheap_prepend}

    -- What the request parser makes of a read with a handshake and more: it reports the end of the
    -- handshake, takes nothing of what is behind it, and is in error there.
    pub record IsFollowed (b : Buf) (p : P) (c : HttpCodec) (req : HttpRequest) (rest : List ℕ)
        : Type 0 where
      pub well : (execute p (readable b)).is_error ≡ false
      pub completes :
          handle_events (on_callbacks (execute p (readable b)).callbacks c).events
          ≡ request_complete req ∷ []
      pub takes_some : (execute p (readable b)).bytes_parsed ≢ 0
      pub leaves : drop (execute p (readable b)).bytes_parsed (readable b) ≡ rest
      pub silent : (execute (execute p (readable b)).parser rest).callbacks ≡ []
      pub takes_none : (execute (execute p (readable b)).parser rest).bytes_parsed ≡ 0
      pub fails : (execute (execute p (readable b)).parser rest).is_error ≡ true

    followed_actions :
        (b : Buf) (p : P) (c : HttpCodec) (req : HttpRequest) (rest : List ℕ)
        → IsFollowed b p c req rest
        → rest ≢ []
        → length rest ≤ cheap_prepend
        → (b' : Buf) × (s : P × HttpCodec) × (readable b' ≡ [])
          × (http_handler_on_data m execute b (p, c)
              ≡ finished b' s (request_complete req ∷ force_close ∷ []))
    unfolding on_data on_callbacks handle_event
    followed_actions b p c req rest f full room =
        let run = execute p (readable b) in
        let c1 = (on_callbacks run.callbacks c).codec in
        let second = on_data execute rest run.parser c1 in
        let begun : handle_events (on_data execute (readable b) p c).events
            ≡ request_complete req ∷ [] =
          rw f.well f.completes in
        let closed : handle_events second.events ≡ force_close ∷ [] = rw (f.fails, f.silent) refl in
        let (b', r, e) =
          http_handler_on_data_twice m execute b p c rest {first = on_data execute (readable b) p c}
            {second = second} refl f.leaves f.takes_some full room refl f.takes_none in
        (
          b',
          (second.parser, second.codec),
          r,
          e
              ∙ ap₂
                  (λ (as' bs : List HandlerAction).
                    finished b' (second.parser, second.codec) (as' ++ bs))
                  begun closed,
        )

    -- A read brings the end of a handshake and behind it at least one byte, of a frame for instance,
    -- but no more than fit in front of an emptied buffer, and the request parser reports the end of
    -- the request, takes nothing of what is behind it, and is in error there. The application first
    -- asks for the upgrade of the request, whose method, key and version are right, and asks for no
    -- second one. Then the loop ends with an empty buffer; the connection is upgraded and the text
    -- that switches the protocol is sent, but behind the application's calls the http handler closes
    -- the connection by force. The websocket handler's codec has got none of the bytes.
    pub on_read-early :
        (b : Buf) (p : P) (c : HttpCodec) (req : HttpRequest) (rest : List ℕ) (h : WebsocketHandler)
        (r : HttpResponse) (k : Program)
        → IsFollowed b p c req rest
        → rest ≢ []
        → length rest ≤ cheap_prepend
        → IsUpgrade x req h r k
        → (b' : Buf) × (s : P × HttpCodec) × (readable b' ≡ [])
          × (on_read x m execute b (connection (p, c) none)
              ≡ finished b'
                  (connection s (some (taken x h req)))
                  ((sends (switching x req r) ∷ calls_of x k) ++ (by_http force_close ∷ [])))
    unfolding on_read
    on_read-early b p c req rest h r k f full room u =
        let (b', s, empty, e) = followed_actions b p c req rest f full room in
        (b', s, empty, rw e (rw (run_both req h r k u) refl))
