-- ===== src/Http/Server/Interleaving.antt =====
-- The connections of a server. `OnConnection` makes a handler for each of them, whose codec is its
-- own, and muduo's event loop calls the handlers' `OnData` one after the other.
use woody.Shared.{◌≡◌, some, List, map}
use woody.Base.StringMap.{Bytes}
use woody.Net.Buffer.{Buffer}
use woody.Net.Loop.Reads.{Served, served}
use woody.Net.Loop.Interleaving.{Ran, run_events, actions_of, reads_of}
use woody.Net.Loop.Interleaving.Alone.{run_events-Alone}
use woody.Http.Codec.{HttpCodec, ParserRun}
use woody.Http.Codec.Sequence.{Message, runs, Held, requests_of, IsHolding}
use woody.Http.Handler.{HandlerAction, request_complete, http_handler_on_data}
use woody.Http.Handler.Session.{TakesAll, all_callbacks, http_reads, http_reads-IsSession}

module _ {P : Type 0} (m : Buffer) (execute : P → Bytes → ParserRun P) where
  open m use {Buf}

  -- What a connection's reads bring, by its request parser: some requests.
  pub record Brings (bs : List Buf) (qs : List Message) (held : Held) (s : P × HttpCodec)
      : Type 0 where
    pub takes : TakesAll m execute bs s.0
    pub calls : all_callbacks m execute bs s.0 ≡ runs qs
    pub holding : IsHolding held s.1

  -- However the reads of the connections interleave: if each connection's reads are each taken whole
  -- and without an error by the connection's request parser, which reports some requests in any
  -- pieces, then every loop ends by itself, and each connection's handler hands exactly the
  -- connection's own requests to the server, in order, as `requests_of` has them, and does nothing
  -- else.
  pub run_events-requests :
      (es : List (Bytes × Buf)) (h : Bytes → P × HttpCodec) (qs : Bytes → List Message)
      (held : Bytes → Held)
      → ((j : Bytes) → Brings (reads_of j es) (qs j) (held j) (h j))
      → (r : Ran (P × HttpCodec) HandlerAction) × (run_events (http_handler_on_data m execute) es h
          ≡ some r)
        × ((j : Bytes)
            → actions_of j r.actions ≡ map request_complete (requests_of (qs j) (held j)))
  unfolding http_reads
  run_events-requests es h qs held brings =
      let session = λ (j : Bytes).
        http_reads-IsSession m execute (reads_of j es) (qs j) (held j) (h j).0 (h j).1
          (brings j).takes (brings j).calls (brings j).holding in
      let out : Bytes → Served (P × HttpCodec) HandlerAction = λ j.
        served ((session j).parser, (session j).codec)
          (map request_complete (requests_of (qs j) (held j))) in
      let (r, e, each) =
        run_events-Alone (http_handler_on_data m execute) es h out (λ j. (session j).hands_over) in
      (r, e, λ j. (each j).1)
