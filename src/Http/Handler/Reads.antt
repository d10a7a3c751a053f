-- ===== src/Http/Handler/Reads.antt =====
-- What becomes of one read.
use woody.Shared.{
  true, ℕ, suc, ◌+◌, ◌-◌, ◌<◌, ◌≡◌, ◌≢◌, ◌≤◌, ◌++◌, drop, refl, ap, ◌∙◌, List, [], length,
  length-drop, arith,
}
use woody.Base.StringMap.{Bytes}
use woody.Net.Buffer.{Buffer}
use woody.Net.Loop.{Fed, finished, overrun, loop}
use woody.Net.Loop.Rounds.{on_data_whole, loop_overrun, on_data_twice}
use woody.Http.Codec.{HttpCodec, ParserRun, CodecData, on_data}
use woody.Http.Handler.{HandlerAction, handle_events, feed, http_handler_on_data}

-- What the loop takes of a call of the codec.
abbrev fed_of : {P : Type 0} → CodecData P → Fed (P × HttpCodec) HandlerAction
fed_of d = record {
  success = true;
  parsed_bytes = d.bytes_parsed;
  codec = (d.parser, d.codec);
  events = handle_events d.events;
}

module _ {P : Type 0} (m : Buffer) (execute : P → Bytes → ParserRun P) where
  open m use {Buf, readable, cheap_prepend}

  -- If the request parser takes the whole of a read that is not empty, the http handler's loop ends
  -- with an empty buffer behind that one call, and the handler's actions are those for the codec's
  -- callbacks, in order.
  pub http_handler_on_data_whole :
      (b : Buf) (p : P) (c : HttpCodec)
      → readable b ≢ []
      → (execute p (readable b)).bytes_parsed ≡ length (readable b)
      → (b' : Buf) × (readable b' ≡ [])
        × (http_handler_on_data m execute b (p, c)
            ≡ finished b'
                (
                  (on_data execute (readable b) p c).parser,
                  (on_data execute (readable b) p c).codec,
                )
                (handle_events (on_data execute (readable b) p c).events))
  unfolding http_handler_on_data feed woody.Http.Codec.on_data
  http_handler_on_data_whole b p c h all =
      on_data_whole m (feed execute) b (p, c) {d = feed execute (readable b) (p, c)} h refl refl all

  -- If the request parser takes a part of a read, as it does in front of an error or of the data
  -- behind an upgrade, and more than the cheap prepend of the buffer is left, then the assertion in
  -- `prepend` fails, whatever the codec.
  pub http_handler_on_data_overrun :
      (b : Buf) (p : P) (c : HttpCodec)
      → (execute p (readable b)).bytes_parsed ≢ 0
      → (execute p (readable b)).bytes_parsed + cheap_prepend < length (readable b)
      → http_handler_on_data m execute b (p, c) ≡ overrun
  unfolding http_handler_on_data feed woody.Http.Codec.on_data woody.Net.Loop.on_data
  http_handler_on_data_overrun b p c some_taken rest_long =
      let n = (execute p (readable b)).bytes_parsed in
      let left = length-drop n (readable b) in
      let enough : length (readable b) ≡ suc (length (readable b) - 1) = omega arith in
      ap (λ (fuel : ℕ). loop m (feed execute) fuel b (p, c) []) enough
      ∙ loop_overrun m (feed execute) (length (readable b) - 1) b (p, c) []
          {d = feed execute (readable b) (p, c)}
          (λ e. absurd (omega (arith, ap (λ (s : List ℕ). length s) e))) refl refl some_taken
          (omega arith) (omega (arith, left))

  -- If the request parser takes a part of a read, the rest fits in front of an emptied buffer, and
  -- the parser takes nothing of the rest, then the http handler's loop ends with an empty buffer
  -- behind two calls of the codec.
  pub http_handler_on_data_twice :
      (b : Buf) (p : P) (c : HttpCodec) (rest : List ℕ) {first second : CodecData P}
      → on_data execute (readable b) p c ≡ first
      → drop first.bytes_parsed (readable b) ≡ rest
      → first.bytes_parsed ≢ 0
      → rest ≢ []
      → length rest ≤ cheap_prepend
      → on_data execute rest first.parser first.codec ≡ second
      → second.bytes_parsed ≡ 0
      → (b' : Buf) × (readable b' ≡ [])
        × (http_handler_on_data m execute b (p, c)
            ≡ finished b'
                (second.parser, second.codec)
                (handle_events first.events ++ handle_events second.events))
  unfolding http_handler_on_data feed
  http_handler_on_data_twice b p c rest {first} {second} e cut pos full room f none_taken =
      on_data_twice m (feed execute) b (p, c) rest {d = fed_of first} {d' = fed_of second}
        (ap fed_of e) refl pos cut full room (ap fed_of f) (rw none_taken refl)
