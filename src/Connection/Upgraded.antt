-- ===== src/Connection/Upgraded.antt =====
-- A whole connection: requests, the handshake of a websocket, and the frames behind it.
use woody.Shared.{
  ◌%◌, ◌^◌, length, ◌≡◌, refl, ap, ◌∙◌, Bool, true, Option, none, some, List, [], ◌∷◌, ◌++◌, All,
  map, append-nil,
}
use woody.Shared.Text.{codes}
use woody.Base.StringMap.{Bytes, insert}
use woody.Bytree.Base64.{base64_encode, sha1}
use woody.Net.Buffer.{Buffer}
use woody.Net.Loop.{finished}
use woody.Net.Loop.Reads.{Served, served, behind_actions, and_then, reads, reads_append}
use woody.Http.Request.{HttpRequest}
use woody.Http.Response.{HttpResponse, end, set_status, add_header}
use woody.Http.Response.Text.{written, end-sent_text}
use woody.Http.Codec.{HttpCodec, ParserCallback, ParserRun}
use woody.Http.Codec.Sequence.{Message, runs, Held, requests_of, request_of, IsHolding, held_at_end}
use woody.Http.Handler.{request_complete, http_handler_on_data}
use woody.Http.Handler.Session.{TakesAll, all_callbacks, parser_behind}
use woody.Http.Handler.Session.Last.{IsInside, http_reads-IsCompleted}
use woody.Http.Server.Routing.{first_of, on_request-first_of}
use woody.Websocket.Parser.{WebsocketParser}
use woody.Websocket.Parser.Invariant.{IsFresh}
use woody.Websocket.Codec.{WebsocketCodec, new_codec}
use woody.Websocket.Codec.Assembly.{Assembled}
use woody.Websocket.Codec.Boxes.{Boxes, no_boxes, Stores}
use woody.Websocket.Codec.Assembler.{boxes}
use woody.Websocket.Handler.{handle_event}
use woody.Websocket.Handler.Delivery.{assemble_stream}
use woody.Websocket.Handler.Reads.{handler_reads, IsServed}
use woody.Websocket.Handler.Session.{Arrival, Holds, all_frames, all_reads, session-IsCollected}
use woody.Websocket.Upgrade.{WebsocketHandler, answer, accept_of}
use woody.Websocket.Upgrade.Cases.{header, value_of, IsAccepted, handle_upgrade-Ends}
use woody.Websocket.Upgrade.Protocols.{offered, with_protocols}
use woody.Websocket.Service.{Ends-success}
use woody.Connection.{
  Program, call_handle_upgrade, HttpApplication, new_response, Setting, ConnectionAction, sends,
  by_websocket, Connection, ran, run_program, complete_message, run_actions, on_read,
}
use woody.Connection.Answers.{IsPlain, calls_of, IsAnswered, answers, run_program-plain}
use woody.Connection.Reads.{
  connection, with_codec, connection_reads, connection_reads-http, connection_reads-websocket,
}

module _ (x : Setting) where
  -- The websocket handler that has taken the connection.
  abbrev pub taken : WebsocketHandler → HttpRequest → WebsocketHandler
  taken h req = with_protocols (offered x.split (header "Sec-WebSocket-Protocol" req)) h

  -- The text that a handshake is answered with, written out: the status 101, the headers of the
  -- application's response, and behind those the five of the handshake, each unless it is there.
  abbrev accept_key : HttpRequest → Bytes
  accept_key req = base64_encode (
      sha1 x.get_digest
        (value_of (header "Sec-WebSocket-Key" req) ++ codes "258EAFA5-E914-47DA-95CA-C5AB0DC85B11"))

  unfoldable pub switching : HttpRequest → HttpResponse → Bytes
  switching req r =
      written (x.int_to_string 101) (codes "Switching Protocols")
        (insert (codes "Content-Length") (x.int_to_string (length r.body % 2 ^ 32)) (
          insert (codes "Sec-WebSocket-Accept") (accept_key req) (
            insert (codes "Sec-WebSocket-Version") (value_of (header "Sec-WebSocket-Version" req)) (
              insert (codes "Connection") (codes "Upgrade")
                (insert (codes "Upgrade") (codes "websocket") r.headers_map)))))
        r.body

  pub switching_lem :
      (req : HttpRequest) (r : HttpResponse)
      → end x.int_to_string (
          answer
            (value_of (header "Sec-WebSocket-Version" req))
            (accept_of x.get_digest x.int_to_string x.string_to_int x.split
              (value_of (header "Sec-WebSocket-Key" req)))
            r)
        ≡ switching req r
  unfolding switching answer set_status add_header
  switching_lem req r = end-sent_text x.int_to_string _

  -- The application that gets the request asks for its upgrade, and the request is right.
  pub record IsUpgrade (req : HttpRequest) (h : WebsocketHandler) (r : HttpResponse) (k : Program)
      : Type 0 where
    pub app : HttpApplication
    pub goes_on : Bool → Program
    pub routed : first_of x.server.apps req.url ≡ some app
    pub asks : app req (new_response x.status_code) ≡ call_handle_upgrade h r goes_on
    pub behind : goes_on true ≡ k
    pub plain : IsPlain k
    pub accepted : IsAccepted x.string_to_int req

  pub run_upgrade :
      (req : HttpRequest) (h : WebsocketHandler) (r : HttpResponse) (k : Program)
      → IsUpgrade req h r k
      → run_actions x (request_complete req ∷ []) none
        ≡ ran (some (taken h req)) (sends (switching req r) ∷ calls_of x k)
  unfolding run_actions complete_message run_program
  run_upgrade req h r k u =
      let e =
        Ends-success x.get_digest x.int_to_string x.string_to_int x.split h req r _ u.accepted
          (handle_upgrade-Ends x.get_digest x.int_to_string x.string_to_int x.split h req r) in
      rw (on_request-first_of x.server req, u.routed, u.asks, e, switching_lem req r, u.behind)
        (rw (run_program-plain x k req (some (taken h req)) u.plain)
          (rw (append-nil (calls_of x k)) refl))

module _ {P : Type 0} (x : Setting) (m : Buffer) (execute : P → Bytes → ParserRun P) where
  open m use {Buf, readable}

  pub connection_reads_append :
      (bs bs' : List Buf) (c : Connection P)
      → connection_reads x m execute (bs ++ bs') c
        ≡ and_then (connection_reads x m execute bs c) (λ c'. connection_reads x m execute bs' c')
  unfolding connection_reads
  connection_reads_append bs bs' c = reads_append (on_read x m execute) bs bs' c

  -- What one read comes to.
  one_read_upgrades :
      (b b' : Buf) (s s' : P × HttpCodec) (req : HttpRequest) (h : WebsocketHandler)
      (r : HttpResponse) (k : Program)
      → http_handler_on_data m execute b s ≡ finished b' s' (request_complete req ∷ [])
      → IsUpgrade x req h r k
      → connection_reads x m execute (b ∷ []) (connection s none)
        ≡ some (
            served
              (connection s' (some (taken x h req)))
              (sends (switching x req r) ∷ calls_of x k))
  unfolding connection_reads reads on_read
  one_read_upgrades b b' s s' req h r k e u =
      rw e (rw (run_upgrade x req h r k u) (rw (append-nil (calls_of x k)) refl))

  -- Some requests and the beginning of another one come in some reads, and the rest of it in one
  -- more. The request parser takes each read whole and without an error.
  pub record BringsLast (bs : List Buf) (b : Buf) (qs : List Message) (q : Message) (held : Held)
      (s : P × HttpCodec) : Type 0 where
    pub part : List ParserCallback
    pub takes : TakesAll m execute bs s.0
    pub takes_last : TakesAll m execute (b ∷ []) (parser_behind m execute bs s.0)
    pub calls : all_callbacks m execute bs s.0 ≡ runs qs ++ part
    pub inside : All IsInside part
    pub rest :
        part ++ all_callbacks m execute (b ∷ []) (parser_behind m execute bs s.0) ≡ runs (q ∷ [])
    pub holding : IsHolding held s.1

  -- All that is done on a connection whose last request upgrades it.
  pub record IsUpgraded (before : List ConnectionAction) (h : WebsocketHandler) (k : Program)
      (text : Bytes) (a : Assembled Boxes) (r : Option (Served (Connection P) ConnectionAction))
      : Type 0 where
    pub http : P × HttpCodec
    pub codec : WebsocketCodec
    pub serves :
        r
        ≡ some (
            served (connection http (some (with_codec h codec))) (
              (before ++ (sends text ∷ calls_of x k))
              ++ map by_websocket (map handle_event a.events)))
    pub represents : Stores codec a.assembly
    pub fresh : IsFresh codec.parser

  abbrev Steps : Type 0
  Steps = Option (Served (Connection P) ConnectionAction)

  -- Three groups of reads, one after the other.
  in_turn :
      (bs cs ds : List Buf) (c c' d e : Connection P) (es fs gs : List ConnectionAction)
      → connection_reads x m execute bs c ≡ some (served c' es)
      → connection_reads x m execute cs c' ≡ some (served d fs)
      → connection_reads x m execute ds d ≡ some (served e gs)
      → connection_reads x m execute ((bs ++ cs) ++ ds) c ≡ some (served e ((es ++ fs) ++ gs))
  in_turn bs cs ds c c' d e es fs gs p q r =
      connection_reads_append (bs ++ cs) ds c
      ∙ ap (λ (o : Steps). and_then o (λ v. connection_reads x m execute ds v))
          (connection_reads_append bs cs c
            ∙ ap (λ (o : Steps). and_then o (λ v. connection_reads x m execute cs v)) p
            ∙ ap (λ (o : Steps). behind_actions es o) q)
      ∙ ap (λ (o : Steps). behind_actions (es ++ fs) o) r

  -- The reads of a connection bring some requests, of which none makes its application ask for an
  -- upgrade, and then, in one more read, the end of another request. The request parser takes each
  -- of these reads whole and without an error, and reports the requests in any pieces. The
  -- application that gets the last request first asks for its upgrade, by a websocket handler with
  -- a new codec, and then does whatever it does but no second upgrade; the request's method is GET,
  -- its key, if it has one, decodes to 16 bytes, and its version, if it has one, casts to 13. The
  -- client's frames then arrive as `Holds` says: any frames of the wire format (no extension bits, a
  -- defined opcode, no fragmented control frame, at most 0xffffffff bytes), each with its length in
  -- any form that it fits, those that the codec turns down among them, in reads with whole frames,
  -- of which those behind the first fit in front of an emptied buffer, or cut over several reads,
  -- the first with the whole header. Then every loop ends by itself. What is done on the connection
  -- is the answers to the requests, with each response's text written out, the text that switches
  -- the protocol (`switching`: the status 101, the accept key and the other headers, written out),
  -- the application's calls behind it, and what the websocket handler does for what the boxes give
  -- for all the payloads, in this order; and the websocket handler's codec waits for the next header
  -- and stands for the boxes behind them.
  pub connection_reads-IsUpgraded :
      (bs : List Buf) (b : Buf) (as' : List (Arrival m)) (qs : List Message) (q : Message)
      (held : Held) (s : P × HttpCodec) (h : WebsocketHandler) (r : HttpResponse) (k : Program)
      (parser : WebsocketParser)
      → BringsLast bs b qs q held s
      → All (IsAnswered x) (map request_complete (requests_of qs held))
      → IsUpgrade x (request_of q (held_at_end qs held)) h r k
      → h.ws_codec ≡ new_codec parser
      → All (Holds boxes m) as'
      → IsUpgraded
          (answers x (map request_complete (requests_of qs held)))
          (taken x h (request_of q (held_at_end qs held)))
          k
          (switching x (request_of q (held_at_end qs held)) r)
          (assemble_stream boxes (all_frames m as') no_boxes)
          (connection_reads x m execute ((bs ++ (b ∷ [])) ++ all_reads m as') (connection s none))
  connection_reads-IsUpgraded bs b as' qs q held s h r k parser brings answered u made holds =
      let req = request_of q (held_at_end qs held) in
      let http =
        http_reads-IsCompleted m execute bs b qs q brings.part held s.0 s.1 brings.takes
          brings.takes_last brings.calls brings.inside brings.rest brings.holding in
      let session : IsServed boxes (assemble_stream boxes (all_frames m as') no_boxes)
          (handler_reads m (all_reads m as') (taken x h req).ws_codec) =
        rw made (
          session-IsCollected m as' (new_codec parser) no_boxes holds (refl, refl)
            (refl, refl, refl, refl)) in
      record {
        http = http.behind;
        codec = session.codec;
        serves =
            in_turn bs (b ∷ []) (all_reads m as') _ _ _ _ _ _ _
              (connection_reads-http x m execute bs s http.between _ http.before answered)
              (one_read_upgrades b http.buffer http.between http.behind req h r k http.last u)
              (connection_reads-websocket x m execute (all_reads m as') http.behind (taken x h req)
                session.codec _ session.serves);
        represents = session.represents;
        fresh = session.fresh;
      }
