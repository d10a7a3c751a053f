-- ===== src/Connection/Courses.antt =====
-- The connections of a server, plain ones and websockets among each other.
use woody.Shared.{◌≡◌, ap, ◌∙◌, none, some, List, [], ◌∷◌, ◌++◌, All, map}
use woody.Base.StringMap.{Bytes}
use woody.Net.Buffer.{Buffer}
use woody.Net.Loop.Reads.{Served, served}
use woody.Net.Loop.Interleaving.{Ran, run_events, actions_of, reads_of}
use woody.Net.Loop.Interleaving.Alone.{run_events-Alone}
use woody.Http.Response.{HttpResponse}
use woody.Http.Codec.{HttpCodec, ParserRun}
use woody.Http.Codec.Sequence.{Message, Held, requests_of, request_of, held_at_end}
use woody.Http.Handler.{request_complete}
use woody.Http.Handler.Session.{http_reads-IsSession}
use woody.Http.Server.Interleaving.{Brings}
use woody.Websocket.Parser.{WebsocketParser}
use woody.Websocket.Codec.{new_codec}
use woody.Websocket.Codec.Boxes.{no_boxes}
use woody.Websocket.Codec.Assembler.{boxes}
use woody.Websocket.Handler.{handle_event}
use woody.Websocket.Handler.Delivery.{assemble_stream}
use woody.Websocket.Handler.Session.{Arrival, Holds, all_frames, all_reads}
use woody.Websocket.Upgrade.{WebsocketHandler}
use woody.Connection.{Program, Setting, ConnectionAction, sends, by_websocket, Connection, on_read}
use woody.Connection.Answers.{calls_of, IsAnswered, answers}
use woody.Connection.Reads.{connection, connection_reads, connection_reads-http}
use woody.Connection.Upgraded.{IsUpgrade, switching, BringsLast, connection_reads-IsUpgraded}

module _ {P : Type 0} (x : Setting) (m : Buffer) (execute : P → Bytes → ParserRun P) where
  open m use {Buf}

  -- A connection that brings requests.
  pub record HttpCourse (bs : List Buf) (s : P × HttpCodec) : Type 0 where
    pub qs : List Message
    pub held : Held
    pub brings : Brings m execute bs qs held s
    pub answered : All (IsAnswered x) (map request_complete (requests_of qs held))

  -- A connection that brings requests, a handshake and the frames behind it.
  pub record WebsocketCourse (bs : List Buf) (s : P × HttpCodec) : Type 0 where
    pub first : List Buf
    pub last : Buf
    pub arrivals : List (Arrival m)
    pub reads : bs ≡ (first ++ (last ∷ [])) ++ all_reads m arrivals
    pub qs : List Message
    pub q : Message
    pub held : Held
    pub brings : BringsLast x m execute first last qs q held s
    pub answered : All (IsAnswered x) (map request_complete (requests_of qs held))
    pub handler : WebsocketHandler
    pub response : HttpResponse
    pub program : Program
    pub upgrades : IsUpgrade x (request_of q (held_at_end qs held)) handler response program
    pub parser : WebsocketParser
    pub made : handler.ws_codec ≡ new_codec parser
    pub holds : All (Holds boxes m) arrivals

  pub data Course (bs : List Buf) (s : P × HttpCodec) : Type 0 where
    plain : HttpCourse bs s → Course bs s
    websocket : WebsocketCourse bs s → Course bs s

  -- What is done on such a connection.
  abbrev pub expected : {bs : List Buf} {s : P × HttpCodec} → Course bs s → List ConnectionAction
  expected (plain c) = answers x (map request_complete (requests_of c.qs c.held))
  expected (websocket c) =
      (answers x (map request_complete (requests_of c.qs c.held))
        ++ (sends (switching x (request_of c.q (held_at_end c.qs c.held)) c.response)
            ∷ calls_of x c.program))
      ++ map by_websocket
          (map handle_event (assemble_stream boxes (all_frames m c.arrivals) no_boxes).events)

  pub connection_reads-expected :
      (bs : List Buf) (s : P × HttpCodec) (c : Course bs s)
      → (d : Connection P) × (connection_reads x m execute bs (connection s none)
          ≡ some (served d (expected c)))
  connection_reads-expected bs s (plain c) =
      let session =
        http_reads-IsSession m execute bs c.qs c.held s.0 s.1 c.brings.takes c.brings.calls
          c.brings.holding in
      (
        connection (session.parser, session.codec) none,
        connection_reads-http x m execute bs s (session.parser, session.codec)
            (map request_complete (requests_of c.qs c.held)) session.hands_over c.answered,
      )
  connection_reads-expected bs s (websocket c) =
      let u =
        connection_reads-IsUpgraded x m execute c.first c.last c.arrivals c.qs c.q c.held s
          c.handler c.response c.program c.parser c.brings c.answered c.upgrades c.made c.holds in
      (
        _,
        ap (λ (bs' : List Buf). connection_reads x m execute bs' (connection s none)) c.reads
            ∙ u.serves,
      )

  -- The connections of one server, in any number, of which each brings either requests that make no
  -- application ask for an upgrade (`HttpCourse`), or such requests, a right handshake and any
  -- frames of the wire format, each with its length in any form that it fits (`WebsocketCourse`), in
  -- reads that interleave with those of the others in any order. Then every loop ends by itself, and
  -- what is done on each connection is what it asks for, in order, and nothing else: the answers to
  -- its own requests, with each response's text written out, and for a websocket the text that
  -- switches the protocol (`switching`, written out with the status 101 and the accept key), the
  -- application's calls behind it, and what the websocket handler does for what the boxes give for
  -- its own frames.
  pub run_events-expected :
      (es : List (Bytes × Buf)) (h : Bytes → P × HttpCodec)
      (courses : (j : Bytes) → Course (reads_of j es) (h j))
      → (r : Ran (Connection P) ConnectionAction) × (run_events
            (on_read x m execute)
            es
            (λ j. connection (h j) none)
          ≡ some r)
        × ((j : Bytes) → actions_of j r.actions ≡ expected (courses j))
  unfolding connection_reads
  run_events-expected es h courses =
      let each = λ (j : Bytes). connection_reads-expected (reads_of j es) (h j) (courses j) in
      let out : Bytes → Served (Connection P) ConnectionAction =
        λ j. served (each j).0 (expected (courses j)) in
      let (r, e, same) =
        run_events-Alone (on_read x m execute) es (λ j. connection (h j) none) out
          (λ j. (each j).1) in
      (r, e, λ j. (same j).1)
