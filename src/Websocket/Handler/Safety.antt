-- ===== src/Websocket/Handler/Safety.antt =====
-- The reading loop on any bytes.
use woody.Shared.{
  ℕ, zero, suc, ◌^◌, ◌≤◌, ◌<◌, ◌≡◌, ◌≢◌, ap, ◌∙◌, inl, inr, true, not, ◌||◌, Option, none, some,
  List, [], ◌++◌, length, length-drop, drop, All, arith, ◌==◌, ==_iff, le→ltb, Bool-cases,
  length_zero,
}
use woody.Base.Endian.{IsByte, All-drop}
use woody.Net.Buffer.{Buffer}
use woody.Net.Loop.{
  Fed, Outcome, finished, out_of_range, overrun, bad_cast, stuck, go_on, put_back, loop, on_data,
}
use woody.Net.Loop.Laws.{prepend_cases}
use woody.Websocket.Frame.{WebsocketFrame}
use woody.Websocket.Parser.{parse}
use woody.Websocket.Parser.Invariant.{IsReady, parse-IsSound}
use woody.Websocket.Codec.{WebsocketCodec, deliver}
use woody.Websocket.Codec
use woody.Websocket.Codec.Frames.{on_parsed_frame-Keeps}
use woody.Websocket.Codec.Receiving.{IsReceiving, on_parsed_frame-IsReceiving}
use woody.Websocket.Handler.{Action, feed, handler_on_data}

-- The codec between two reads: its parser is ready, masking is expected, and no message of a
-- control frame's type is being assembled.
pub record IsWell (c : WebsocketCodec) : Type 0 where
  pub ready : IsReady c.parser
  pub masking : c.is_expected_masking ≡ true
  pub receiving : IsReceiving c.cur_message_type

deliver-IsWell :
    (f : Option WebsocketFrame) (c : WebsocketCodec) → IsWell c → IsWell (deliver f c).codec
unfolding deliver
deliver-IsWell none c well = well
deliver-IsWell (some f) c well =
    let (same_parser, same_masking) = on_parsed_frame-Keeps f c in
    record {
      ready = rw same_parser well.ready;
      masking = same_masking ∙ well.masking;
      receiving = on_parsed_frame-IsReceiving f c well.receiving;
    }

-- The codec's call keeps this and takes no more than there is.
pub record IsSafeFed (bytes : List ℕ) (d : Fed WebsocketCodec Action) : Type 0 where
  pub well : IsWell d.codec
  pub within : d.parsed_bytes ≤ length bytes

feed-IsSafeFed :
    (bytes : List ℕ) (c : WebsocketCodec)
    → length bytes < 2 ^ 64
    → All IsByte bytes
    → IsWell c
    → IsSafeFed bytes (feed bytes c)
unfolding feed Codec.on_data
feed-IsSafeFed bytes c fits are_bytes well =
    let sound = parse-IsSound bytes c.parser fits are_bytes well.ready in
    let r = parse bytes 0 c.parser in
    record {
      well =
          deliver-IsWell r.complete (record c { parser = r.parser })
            (record { ready = sound.ready; masking = well.masking; receiving = well.receiving });
      within = sound.within;
    }

module _ (m : Buffer) where
  open m use {Buf, readable, retrieve_all, retrieve_all_empties, prepend}

  -- The ends that the loop may have: by itself, with an empty buffer and a codec that is well, or
  -- by the assertion of the buffer; but not by the exception, and never without an end.
  abbrev pub IsSafe : Outcome Buf WebsocketCodec Action → Type 0
  IsSafe (finished b c es) = (readable b ≡ []) × IsWell c
  IsSafe out_of_range = ⊥
  IsSafe overrun = Unit
  IsSafe bad_cast = ⊥
  IsSafe stuck = ⊥

  go_on-IsSafe :
      (bytes : List ℕ) (b : Buf) (next : Buf → Outcome Buf WebsocketCodec Action)
      → ((b' : Buf) → readable b' ≡ bytes → IsSafe (next b'))
      → IsSafe (go_on m (prepend bytes (retrieve_all b)) next)
  go_on-IsSafe bytes b next h = elim (prepend_cases m bytes b) [
    | inl e ↦ rw e tt
    | inr (b', e, r) ↦ rw e (h b' r)
  ]

  put_back-IsSafe :
      (bytes : List ℕ) (b : Buf) (es : List Action) (d : Fed WebsocketCodec Action)
      (next : Buf → Outcome Buf WebsocketCodec Action)
      → IsSafeFed bytes d
      → ((b' : Buf)
          → readable b' ≡ drop d.parsed_bytes bytes
          → d.parsed_bytes ≢ 0
          → IsSafe (next b'))
      → IsSafe (put_back m bytes b es d next)
  unfolding put_back
  put_back-IsSafe bytes b es d next safe h =
      elim (Bool-cases (not d.success || d.parsed_bytes == 0)) [
        | inl e ↦ rw e (retrieve_all_empties b, safe.well)
        | inr e ↦
            rw (e, le→ltb (length bytes) d.parsed_bytes safe.within)
              (go_on-IsSafe (drop d.parsed_bytes bytes) b next (λ b' r. h b' r (ground arith)))
      ]

  loop-IsSafe :
      (fuel : ℕ) (b : Buf) (c : WebsocketCodec) (es : List Action)
      → length (readable b) ≤ fuel
      → length (readable b) < 2 ^ 64
      → All IsByte (readable b)
      → IsWell c
      → IsSafe (loop m feed fuel b c es)
  unfolding loop
  loop-IsSafe zero b c es enough fits are_bytes well =
      rw ((==_iff (length (readable b)) 0).1 (omega arith))
        (length_zero (readable b) (omega arith), well)
  loop-IsSafe (suc fuel) b c es enough fits are_bytes well =
      elim (Bool-cases (length (readable b) == 0)) [
        | inl e ↦ rw e (length_zero (readable b) ((==_iff (length (readable b)) 0).0 e), well)
        | inr e ↦
            let d = feed (readable b) c in
            let safe = feed-IsSafeFed (readable b) c fits are_bytes well in
            rw e (
              put_back-IsSafe (readable b) b es d
                (λ b'. loop m feed fuel b' d.codec (es ++ d.events)) safe
                (λ b' r pos.
                  let shorter = ap (λ (s : List ℕ). length s) r in
                  let dropped = length-drop d.parsed_bytes (readable b) in
                  loop-IsSafe fuel b' d.codec (es ++ d.events) (omega (arith, shorter, dropped))
                    (omega (arith, shorter, dropped))
                    (rw r (All-drop d.parsed_bytes (readable b) are_bytes)) safe.well))
      ]

  -- On a buffer of bytes, whatever they are, whose length fits `size_t`: if the codec is well when
  -- the loop begins (its parser is ready, masking is expected, and what is being assembled is no
  -- message or a text or binary one), then the loop ends, it does not throw `std::out_of_range`,
  -- and where the buffer's assertion does not end it the buffer is empty and the codec well again.
  pub handler_on_data-IsSafe :
      (b : Buf) (c : WebsocketCodec)
      → length (readable b) < 2 ^ 64
      → All IsByte (readable b)
      → IsWell c
      → IsSafe (handler_on_data m b c)
  unfolding handler_on_data on_data
  handler_on_data-IsSafe b c fits are_bytes well =
      loop-IsSafe (length (readable b)) b c [] (omega arith) fits are_bytes well
