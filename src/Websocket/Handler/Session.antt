-- ===== src/Websocket/Handler/Session.antt =====
-- A client's frames over a whole connection, some of them several in one read, some cut over many.
use woody.Shared.{
  ℕ, ◌^◌, ◌≤◌, ◌<◌, ◌≡◌, ◌≢◌, refl, sym, ap, ◌∙◌, Option, some, List, [], ◌∷◌, ◌++◌, map,
  append-nil, append_assoc, length, All,
}
use mathlib.Core.Path.{subst}
use mathlib.Core.List.{map-append, tail}
use woody.Net.Buffer.{Buffer}
use woody.Net.Loop.Reads.{Served, served, reads, behind_actions, and_then, reads_append}
use woody.Websocket.Parser.Invariant.{IsFresh}
use woody.Websocket.Codec.{WebsocketCodec, Event}
use woody.Websocket.Codec.Wire.{wire_header}
use woody.Websocket.Codec.Assembly.{Assembly, Assembled, assembled, Represents}
use woody.Websocket.Codec.Boxes.{Boxes, Stores}
use woody.Websocket.Codec.Assembler.{ClientFrame, masked_frame, Assembler, protocol, boxes}
use woody.Websocket.Handler.{Action, handle_event, handler_on_data}
use woody.Websocket.Handler.Delivery.{stream, assemble_stream, handler_on_data-IsDelivered}
use woody.Websocket.Handler.Reads.{handler_reads, IsServed}
use woody.Websocket.Handler.Reads.Pieces.{concat, handler_reads-masked_frame}

-- One after the other.
abbrev both : {S : Type 0} → Assembled S → (S → Assembled S) → Assembled S
both a more = let b = more a.assembly in assembled b.assembly (a.events ++ b.events)

assemble_stream_append :
    (k : Assembler) (xs ys : List ClientFrame) (s : k.State)
    → assemble_stream k (xs ++ ys) s ≡ both (assemble_stream k xs s) (λ t. assemble_stream k ys t)
unfolding assemble_stream
assemble_stream_append k [] ys s = refl
assemble_stream_append k (x ∷ xs) ys s =
    let a = k.next x s in
    let first = assemble_stream k xs a.assembly in
    let second = assemble_stream k ys first.assembly in
    ap (λ (b : Assembled k.State). assembled b.assembly (a.events ++ b.events))
      (assemble_stream_append k xs ys a.assembly)
    ∙ ap (λ (es : List Event). assembled second.assembly es)
        (sym (append_assoc a.events first.events second.events))

one_frame :
    (k : Assembler) (x : ClientFrame) (s : k.State) → k.next x s ≡ assemble_stream k (x ∷ []) s
unfolding assemble_stream
one_frame k x s =
    let a = k.next x s in
    ap (λ (es : List Event). assembled a.assembly es) (sym (append-nil a.events))

module _ (m : Buffer) where
  open m use {Buf, readable, cheap_prepend}

  -- What arrives: a read with whole frames, or one frame cut over two reads or more, of which the
  -- first brings `first` of the body behind the header.
  pub data Arrival : Type 0 where
    whole : List ClientFrame → Buf → Arrival
    cut : ClientFrame → List ℕ → Buf → Buf → List Buf → Arrival

  abbrev pub frames_of : Arrival → List ClientFrame
  frames_of (whole xs b) = xs
  frames_of (cut x first b d bs) = x ∷ []

  abbrev pub reads_of : Arrival → List Buf
  reads_of (whole xs b) = b ∷ []
  reads_of (cut x first b d bs) = b ∷ d ∷ bs

  unfoldable pub all_frames : List Arrival → List ClientFrame
  all_frames [] = []
  all_frames (a ∷ as') = frames_of a ++ all_frames as'

  unfoldable pub all_reads : List Arrival → List Buf
  all_reads [] = []
  all_reads (a ∷ as') = reads_of a ++ all_reads as'

module _ (k : Assembler) (m : Buffer) where
  open m use {Buf, readable, cheap_prepend}

  -- The reads hold the frames. Of several frames in one read, those behind the first fit in front of
  -- an emptied buffer.
  abbrev pub Holds : Arrival m → Type 0
  Holds (whole xs b) =
      (readable b ≡ stream xs)
      × All k.IsGood xs
      × (length (stream xs) < 2 ^ 64)
      × (length (stream (tail xs)) ≤ cheap_prepend)
  Holds (cut x first b d bs) =
      k.IsGood x
      × (readable b ≡ wire_header x.form (masked_frame x) ++ first)
      × ((masked_frame x).body ≡ first ++ concat (map readable (d ∷ bs)))
      × All (λ b. readable b ≢ []) (d ∷ bs)

  arrival-IsServed :
      (a : Arrival m) (c : WebsocketCodec) (s : k.State)
      → Holds a
      → IsFresh c.parser
      → k.Stands c s
      → IsServed k (assemble_stream k (frames_of m a) s) (handler_reads m (reads_of m a) c)
  unfolding handler_reads reads
  arrival-IsServed (whole xs b) c s (holds, good, fits, room) fresh r =
      let d = handler_on_data-IsDelivered k m xs b c s holds good fits room fresh r in
      record {
        codec = d.codec;
        serves = rw (d.ends) (rw append-nil refl);
        represents = d.represents;
        fresh = d.fresh;
      }
  arrival-IsServed (cut x first b d bs) c s (good, holds, parts, full) fresh r =
      subst (λ (a : Assembled k.State). IsServed k a (handler_reads m (b ∷ d ∷ bs) c))
        (one_frame k x s)
        (handler_reads-masked_frame k m x first b d bs c s good holds parts full fresh r)

  -- More reads behind those that were served.
  IsServed-append :
      (a : Assembled k.State) (more : k.State → Assembled k.State) (bs bs' : List Buf)
      (c : WebsocketCodec) (i : IsServed k a (handler_reads m bs c))
      → IsServed k (more a.assembly) (handler_reads m bs' i.codec)
      → IsServed k (both a more) (handler_reads m (bs ++ bs') c)
  unfolding handler_reads
  IsServed-append a more bs bs' c i j = record {
    codec = j.codec;
    serves =
        reads_append (handler_on_data m) bs bs' c
        ∙ ap
            (λ (o : Option (Served WebsocketCodec Action)).
              and_then o (λ c'. reads (handler_on_data m) bs' c'))
            i.serves
        ∙ ap
            (λ (o : Option (Served WebsocketCodec Action)).
              behind_actions (map handle_event a.events) o)
            j.serves
        ∙ ap (λ (as' : List Action). some (served j.codec as'))
            (sym (map-append handle_event a.events (more a.assembly).events));
    represents = j.represents;
    fresh = j.fresh;
  }

  -- Any sequence of arrivals, for any machine.
  pub session-all_reads :
      (as' : List (Arrival m)) (c : WebsocketCodec) (s : k.State)
      → All Holds as'
      → IsFresh c.parser
      → k.Stands c s
      → IsServed k (assemble_stream k (all_frames m as') s) (handler_reads m (all_reads m as') c)
  unfolding all_frames all_reads
  session-all_reads [] c s h fresh r = record {
    codec = c;
    serves = unfold handler_reads reads assemble_stream in refl;
    represents = unfold assemble_stream in r;
    fresh = fresh;
  }
  session-all_reads (a ∷ as') c s h fresh r =
      let i = arrival-IsServed a c s h.0 fresh r in
      let j = session-all_reads as' i.codec _ h.1 i.fresh i.represents in
      rw (assemble_stream_append k (frames_of m a) (all_frames m as') s) (
        IsServed-append (assemble_stream k (frames_of m a) s)
          (λ t. assemble_stream k (all_frames m as') t) (reads_of m a) (all_reads m as') c i j)

module _ (m : Buffer) where
  -- A client sends any number of frames of the wire format (no extension bits, a defined opcode, no
  -- fragmented control frame, at most 0xffffffff bytes), each masked with a key that is not zero and
  -- with its length in any form that it fits, of which none is a continuation in the middle of a
  -- message. They arrive in any sequence of reads, each with whole frames, of which those behind the
  -- first fit in front of an emptied buffer, or with a piece of one frame, the first piece with the
  -- whole header. A handler that waits for a header and stands where the abstract assembler stands
  -- gets through all the reads, and its actions are the application's callbacks for what the
  -- assembler makes of all the payloads, in order; and the codec waits for the next header and
  -- stands where the assembler stands.
  pub session-IsServed :
      (as' : List (Arrival m)) (c : WebsocketCodec) (s : Assembly)
      → All (Holds protocol m) as'
      → IsFresh c.parser
      → Represents c s
      → IsServed protocol
          (assemble_stream protocol (all_frames m as') s)
          (handler_reads m (all_reads m as') c)
  session-IsServed = session-all_reads protocol m

  -- A client sends any frames of the wire format (no extension bits, a defined opcode, no
  -- fragmented control frame, at most 0xffffffff bytes), masked with any keys, each with its length
  -- in any form that it fits, and in any order, those that the codec turns down and continuations in
  -- the middle of a message among them. They arrive in any sequence of reads, each with whole frames,
  -- of which those behind the first fit in front of an emptied buffer, or with a piece of one frame,
  -- the first piece with the whole header. A handler that waits for a header and whose codec stands
  -- for some boxes gets through all the reads, and its actions are exactly those that the boxes give
  -- for all the payloads, in order: a callback of the application for a whole message, a forced
  -- close for a frame that the codec turns down; and the codec waits for the next header and stands
  -- for the boxes behind them.
  pub session-IsCollected :
      (as' : List (Arrival m)) (c : WebsocketCodec) (s : Boxes)
      → All (Holds boxes m) as'
      → IsFresh c.parser
      → Stores c s
      → IsServed boxes
          (assemble_stream boxes (all_frames m as') s)
          (handler_reads m (all_reads m as') c)
  session-IsCollected = session-all_reads boxes m
