-- ===== src/Websocket/Handler/Reads/Pieces.antt =====
-- A frame whose body comes in several reads.
use woody.Shared.{
  ℕ, ◌+◌, ◌^◌, ◌≤◌, ◌<◌, ◌≡◌, ◌≢◌, refl, sym, ap, ◌∙◌, true, some, List, [], ◌∷◌, ◌++◌, map,
  append-nil, append_assoc, length, length-append, All, arith,
}
use woody.Net.Buffer.{Buffer}
use woody.Net.Loop.{Fed}
use woody.Net.Loop.Rounds.{on_data_whole, nonempty}
use woody.Websocket.Frame.{WebsocketFrame}
use woody.Websocket.Parser.{WebsocketParser, stop, parse}
use woody.Websocket.Parser.Invariant.{IsFresh}
use woody.Websocket.Codec.{WebsocketCodec, deliver, on_parsed_frame, Handled, Event}
use woody.Websocket.Codec
use woody.Websocket.Codec.Wire.{IsSendable, LengthForm, wire, wire_header}
use woody.Websocket.Codec.ReadLength.{length-wire_header}
use woody.Websocket.Codec.Pieces.{amid, parse_first, parse_next, parse_last}
use woody.Websocket.Codec.Stream.{reported, reported_to, on_data-wire, IsReceived}
use woody.Websocket.Handler.{Action, handle_event, feed, handler_on_data}
use woody.Websocket.Codec.Assembler.{ClientFrame, masked_frame, Assembler, on_data-IsReceived}
use woody.Net.Loop.Reads.{served, reads, no_actions}
use woody.Websocket.Handler.Reads.{handler_reads, IsServed}

unfoldable pub concat : List (List ℕ) → List ℕ
concat [] = []
concat (s ∷ ss) = s ++ concat ss

-- The codec while a frame is under way.
abbrev amid_codec : WebsocketFrame → List ℕ → WebsocketCodec → WebsocketCodec
amid_codec f s c = record c { parser = amid f s c.parser }

-- A call of the codec on a piece that ends no frame.
abbrev waiting : List ℕ → WebsocketCodec → Fed WebsocketCodec Action
waiting bytes c = record { success = true; parsed_bytes = length bytes; codec = c; events = [] }

feed-waiting :
    (bytes : List ℕ) (c : WebsocketCodec) (q : WebsocketParser)
    → parse bytes 0 c.parser ≡ stop true (length bytes) q
    → feed bytes c ≡ waiting bytes (record c { parser = q })
unfolding feed Codec.on_data deliver
feed-waiting bytes c q e = rw e refl

-- What the handling of the frame makes.
abbrev at_end : WebsocketFrame → WebsocketCodec → Handled
at_end f c = on_parsed_frame (reported f c) (reported_to f c)

feed_last :
    (f : WebsocketFrame) (s t : List ℕ) (c : WebsocketCodec)
    → IsSendable f
    → f.body ≡ s ++ t
    → length t < 2 ^ 64
    → feed t (amid_codec f s c) ≡ record {
      success = true;
      parsed_bytes = length t;
      codec = (at_end f c).codec;
      events = map handle_event (at_end f c).events;
    }
unfolding feed Codec.on_data deliver
feed_last f s t c i e fits =
    rw (rw append-nil at (parse_last f s t [] c.parser i e (rw append-nil fits))) refl

wire_header_pos : (form : LengthForm) (f : WebsocketFrame) → 1 ≤ length (wire_header form f)
unfolding wire_header
wire_header_pos form f = omega arith

wire_fits :
    (form : LengthForm) (f : WebsocketFrame) → IsSendable f → length (wire form f ++ []) < 2 ^ 64
unfolding wire
wire_fits form f i = rw (append-nil (wire_header form f ++ f.body)) (
    omega
      (arith, length-append (wire_header form f) f.body, length-wire_header form f, i.length_fits))

module _ (m : Buffer) where
  open m use {Buf, readable}

  read_waiting :
      (b : Buf) (bs : List Buf) (c : WebsocketCodec) (q : WebsocketParser)
      → readable b ≢ []
      → parse (readable b) 0 c.parser ≡ stop true (length (readable b)) q
      → handler_reads m (b ∷ bs) c ≡ handler_reads m bs (record c { parser = q })
  unfolding handler_reads handler_on_data reads
  read_waiting b bs c q h e =
      let (b', r, ends) =
        on_data_whole m feed b c {d = waiting (readable b) (record c { parser = q })} h
          (feed-waiting (readable b) c q e) refl refl in
      rw ends (no_actions _)

  read_last :
      (f : WebsocketFrame) (s : List ℕ) (b : Buf) (c : WebsocketCodec)
      → IsSendable f
      → f.body ≡ s ++ readable b
      → readable b ≢ []
      → handler_reads m (b ∷ []) (amid_codec f s c)
        ≡ some (served (at_end f c).codec (map handle_event (at_end f c).events))
  unfolding handler_reads handler_on_data reads
  read_last f s b c i e h =
      let sizes : length f.body ≡ length s + length (readable b) =
        ap (λ (u : List ℕ). length u) e ∙ length-append s (readable b) in
      let (b', r, ends) =
        on_data_whole m feed b (amid_codec f s c) h
          (feed_last f s (readable b) c i e (omega (arith, sizes, i.length_fits))) refl refl in
      rw ends (rw append-nil refl)

  -- The reads behind the first: all but the last end no frame.
  reads_amid :
      (f : WebsocketFrame) (s : List ℕ) (b : Buf) (bs : List Buf) (c : WebsocketCodec)
      → IsSendable f
      → f.body ≡ s ++ concat (map readable (b ∷ bs))
      → All (λ b. readable b ≢ []) (b ∷ bs)
      → handler_reads m (b ∷ bs) (amid_codec f s c)
        ≡ some (served (at_end f c).codec (map handle_event (at_end f c).events))
  unfolding concat
  reads_amid f s b [] c i e h =
      read_last f s b c i (e ∙ ap (λ (t : List ℕ). s ++ t) (append-nil (readable b))) h.0
  reads_amid f s b (d ∷ bs) c i e h =
      let rest : List ℕ = concat (map readable bs) in
      let regroup : f.body ≡ (s ++ readable b) ++ (readable d ++ rest) =
        e ∙ sym (append_assoc s (readable b) (readable d ++ rest)) in
      let n = nonempty m feed (readable d) h.1.0 in
      read_waiting b (d ∷ bs) (amid_codec f s c) (amid f (s ++ readable b) c.parser) h.0 (
        parse_next f s (readable b) c.parser i (
          omega (
            arith,
            ap (λ (u : List ℕ). length u) regroup,
            length-append (s ++ readable b) (readable d ++ rest),
            length-append (readable d) rest,
          )))
      ∙ reads_amid f (s ++ readable b) d bs c i regroup h.1

module _ (k : Assembler) (m : Buffer) where
  open m use {Buf, readable}

  -- A frame of a client in two reads or more, for any machine.
  pub handler_reads-masked_frame :
      (x : ClientFrame) (first : List ℕ) (b d : Buf) (bs : List Buf) (c : WebsocketCodec)
      (s : k.State)
      → k.IsGood x
      → readable b ≡ wire_header x.form (masked_frame x) ++ first
      → (masked_frame x).body ≡ first ++ concat (map readable (d ∷ bs))
      → All (λ b. readable b ≢ []) (d ∷ bs)
      → IsFresh c.parser
      → k.Stands c s
      → IsServed k (k.next x s) (handler_reads m (b ∷ d ∷ bs) c)
  unfolding concat
  handler_reads-masked_frame x first b d bs c s good holds parts full fresh r =
      let f : WebsocketFrame = masked_frame x in
      let i : IsSendable f = k.sendable x good in
      let sizes =
        ap (λ (u : List ℕ). length u) parts
        ∙ length-append first (readable d ++ concat (map readable bs)) in
      let n = nonempty m feed (readable d) full.0 in
      let received : IsReceived k.Stands (wire x.form f) (k.next x s)
          (Codec.on_data (wire x.form f ++ []) 0 c) =
        on_data-IsReceived k x [] c s good (wire_fits x.form f i) fresh r in
      let received' =
        rw (on_data-wire x.form f [] c i (k.length_fits x good) (wire_fits x.form f i) fresh) at
          received in
      let begins =
        parse_first x.form f first c.parser i (k.length_fits x good) fresh
          (omega (
            arith,
            length-append (wire_header x.form f) first,
            length-wire_header x.form f,
            sizes,
            i.length_fits,
          ))
          (omega (arith, sizes, length-append (readable d) (concat (map readable bs)))) in
      record {
        codec = (at_end f c).codec;
        serves =
            read_waiting m b (d ∷ bs) c (amid f first c.parser)
              (λ z. absurd (
                omega (
                  arith,
                  ap (λ (u : List ℕ). length u) (sym holds ∙ z),
                  length-append (wire_header x.form f) first,
                  wire_header_pos x.form f,
                )))
              (rw holds begins)
            ∙ reads_amid m f first d bs c i parts full
            ∙ ap (λ (es : List Event). some (served (at_end f c).codec (map handle_event es)))
                received'.announces;
        represents = received'.represents;
        fresh = received'.fresh;
      }
