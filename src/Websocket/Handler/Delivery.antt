-- ===== src/Websocket/Handler/Delivery.antt =====
-- What the reading loop makes of whole frames.
use woody.Shared.{
  ℕ, zero, suc, ◌^◌, ◌≤◌, ◌<◌, ◌≡◌, ◌≢◌, refl, sym, ap, ◌∙◌, List, [], ◌∷◌, ◌++◌, map, append-nil,
  append_assoc, length, length-append, drop, drop_append, All, arith,
}
use mathlib.Core.List.{map-append, tail}
use woody.Net.Buffer.{Buffer}
use woody.Net.Loop.{Outcome, finished, loop, on_data}
use woody.Net.Loop.Rounds.{loop_empty, loop_step}
use woody.Websocket.Parser.Invariant.{IsFresh}
use woody.Websocket.Codec.{Event, WebsocketCodec}
use woody.Websocket.Codec
use woody.Websocket.Codec.Wire.{wire, wire_header}
use woody.Websocket.Codec.Assembly.{Assembled, assembled}
use woody.Websocket.Codec.Assembler.{ClientFrame, masked_frame, Assembler, on_data-IsReceived}
use woody.Websocket.Codec.Stream.{IsReceived}
use woody.Websocket.Handler.{Action, handle_event, feed, handler_on_data}

abbrev pub encode : ClientFrame → List ℕ
encode x = wire x.form (masked_frame x)

-- What the client sends, and what a machine makes of it.
unfoldable pub stream : List ClientFrame → List ℕ
stream [] = []
stream (x ∷ xs) = encode x ++ stream xs

unfoldable pub assemble_stream : (k : Assembler) → List ClientFrame → k.State → Assembled k.State
assemble_stream k [] s = assembled s []
assemble_stream k (x ∷ xs) s =
    let a = k.next x s in
    let rest = assemble_stream k xs a.assembly in assembled rest.assembly (a.events ++ rest.events)

pub encode_pos : (x : ClientFrame) → 1 ≤ length (encode x)
unfolding wire wire_header
encode_pos x = omega arith

module _ (k : Assembler) (m : Buffer) where
  open m use {Buf, readable, retrieve_all, prepend, cheap_prepend}

  -- The loop has ended with nothing left over.
  pub record IsDelivered (a : Assembled k.State) (es : List Action)
      (r : Outcome Buf WebsocketCodec Action) : Type 0 where
    pub buffer : Buf
    pub codec : WebsocketCodec
    pub ends : r ≡ finished buffer codec (es ++ map handle_event a.events)
    pub emptied : readable buffer ≡ []
    pub represents : k.Stands codec a.assembly
    pub fresh : IsFresh codec.parser

  module _ (x : ClientFrame) (xs : List ClientFrame) (fuel : ℕ) (b : Buf) (c : WebsocketCodec)
      (s : k.State) (es : List Action) (holds : readable b ≡ encode x ++ stream xs)
      (received : IsReceived k.Stands
        (encode x)
        (k.next x s)
        (Codec.on_data (readable b) 0 c)) where
    pub left_over : drop (feed (readable b) c).parsed_bytes (readable b) ≡ stream xs
    unfolding feed
    left_over =
        rw (received.takes, holds) (drop_append (encode x) (stream xs) (length (encode x)) refl)

    pub taken : (feed (readable b) c).parsed_bytes ≡ length (encode x)
    unfolding feed
    taken = received.takes

    pub not_empty : readable b ≢ []
    not_empty e = absurd (
        omega
          (arith, ap length (sym holds ∙ e), length-append (encode x) (stream xs), encode_pos x))

    -- One frame is taken and the loop goes on with what follows it.
    deliver_step :
        length (stream xs) ≤ cheap_prepend
        → (b' : Buf) × (readable b' ≡ stream xs)
          × (loop m feed (suc fuel) b c es
              ≡ loop m feed fuel b'
                  (Codec.on_data (readable b) 0 c).codec
                  (es ++ map handle_event (k.next x s).events))
    unfolding feed
    deliver_step room =
        let (b', r, e) =
          loop_step m feed fuel b c es not_empty refl received.succeeds
            (omega (arith, taken, encode_pos x))
            (omega (arith, taken, ap length holds, length-append (encode x) (stream xs)))
            (rw left_over room) in
        (b', r ∙ left_over, e ∙ rw received.announces refl)

  shorter :
      (xs : List ClientFrame)
      → length (stream xs) ≤ cheap_prepend
      → length (stream (tail xs)) ≤ cheap_prepend
  unfolding stream
  shorter [] h = omega arith
  shorter (x ∷ xs) h = omega (arith, length-append (encode x) (stream xs))

  length-stream : (xs : List ClientFrame) → length xs ≤ length (stream xs)
  unfolding stream
  length-stream [] = omega arith
  length-stream (x ∷ xs) =
      omega (arith, length-append (encode x) (stream xs), encode_pos x, length-stream xs)

  after_round :
      (a : Assembled k.State) (es : List Action) (new : List Event)
      {r r' : Outcome Buf WebsocketCodec Action}
      → r ≡ r'
      → IsDelivered a (es ++ map handle_event new) r'
      → IsDelivered (assembled a.assembly (new ++ a.events)) es r
  after_round a es new step rest = record {
    buffer = rest.buffer;
    codec = rest.codec;
    ends =
        step
        ∙ rest.ends
        ∙ cc (
          append_assoc es (map handle_event new) (map handle_event a.events),
          map-append handle_event new a.events,
        );
    emptied = rest.emptied;
    represents = rest.represents;
    fresh = rest.fresh;
  }

  loop-IsDelivered :
      (xs : List ClientFrame) (fuel : ℕ) (b : Buf) (c : WebsocketCodec) (s : k.State)
      (es : List Action)
      → readable b ≡ stream xs
      → All k.IsGood xs
      → length (stream xs) < 2 ^ 64
      → length (stream (tail xs)) ≤ cheap_prepend
      → length xs ≤ fuel
      → IsFresh c.parser
      → k.Stands c s
      → IsDelivered (assemble_stream k xs s) es (loop m feed fuel b c es)
  unfolding stream assemble_stream
  loop-IsDelivered [] fuel b c s es holds good fits room enough fresh r = record {
    buffer = b;
    codec = c;
    ends = loop_empty m feed fuel b c es holds ∙ rw append-nil refl;
    emptied = holds;
    represents = r;
    fresh = fresh;
  }
  loop-IsDelivered (x ∷ xs) zero b c s es holds good fits room enough fresh r = absurd (omega arith)
  loop-IsDelivered (x ∷ xs) (suc fuel) b c s es holds good fits room enough fresh r =
      let received : IsReceived k.Stands (encode x) (k.next x s) (Codec.on_data (readable b) 0 c) =
        rw holds (on_data-IsReceived k x (stream xs) c s good.0 fits fresh r) in
      let (b', holds', step) = deliver_step x xs fuel b c s es holds received room in
      let rest =
        loop-IsDelivered xs fuel b' (Codec.on_data (readable b) 0 c).codec (k.next x s).assembly
          (es ++ map handle_event (k.next x s).events) holds' good.1
          (omega (arith, length-append (encode x) (stream xs))) (shorter xs room) (omega arith)
          received.fresh received.represents in
      after_round (assemble_stream k xs (k.next x s).assembly) es (k.next x s).events step rest

  -- A buffer holds the frames of a client, one after the other, which are good for the machine, and
  -- of which all but the first fit in front of an emptied buffer; the codec waits for a header and
  -- stands where the machine stands. Then the handler's loop ends by itself and empties the buffer;
  -- its actions are those for what the machine makes of the client's frames, in order, and the
  -- codec waits for the next header and stands where the machine stands.
  pub handler_on_data-IsDelivered :
      (xs : List ClientFrame) (b : Buf) (c : WebsocketCodec) (s : k.State)
      → readable b ≡ stream xs
      → All k.IsGood xs
      → length (stream xs) < 2 ^ 64
      → length (stream (tail xs)) ≤ cheap_prepend
      → IsFresh c.parser
      → k.Stands c s
      → IsDelivered (assemble_stream k xs s) [] (handler_on_data m b c)
  unfolding handler_on_data on_data
  handler_on_data-IsDelivered xs b c s holds good fits room fresh r =
      loop-IsDelivered xs (length (readable b)) b c s [] holds good fits room
        (omega (arith, ap length holds, length-stream xs)) fresh r
