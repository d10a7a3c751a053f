-- ===== src/Websocket/Codec/Pieces.antt =====
-- `Parse` on a frame that comes in pieces: its header with a first piece of the body, then more of
-- the body, then the end of it.
use woody.Shared.{
  ℕ, ◌+◌, ◌-◌, ◌^◌, ◌<◌, ◌≡◌, refl, ap, ◌∙◌, true, some, List, ◌++◌, length, length-append,
  take_all, drop_append, take_append, arith,
}
use woody.Websocket.Frame.{WebsocketFrame}
use woody.Websocket.Parser.{
  parsing_body_begin, WebsocketParser, stop, on_parsing_complete, clean_up, end_header, parse,
}
use woody.Websocket.Parser.Body.{zero-add64, parse_body_done, parse_body_more}
use woody.Websocket.Parser.Invariant.{IsFresh}
use woody.Websocket.Codec.Wire.{IsSendable, LengthForm, Fits, wire_header}
use woody.Websocket.Codec.ReadLength.{load, reported_key, behind}
use woody.Websocket.Codec.RoundTrip.{parse-wire_header}

-- The parser behind the header of a frame and the bytes `s` of its body.
abbrev pub amid : WebsocketFrame → List ℕ → WebsocketParser → WebsocketParser
amid f s p = record (load f p) {
  masking_key = reported_key f p;
  state = parsing_body_begin;
  body = s;
}

-- The beginning.
pub parse_first :
    (form : LengthForm) (f : WebsocketFrame) (s : List ℕ) (p : WebsocketParser)
    → IsSendable f
    → Fits form f.payload_length
    → IsFresh p
    → length (wire_header form f ++ s) < 2 ^ 64
    → length s < length f.body
    → parse (wire_header form f ++ s) 0 p
      ≡ stop true (length (wire_header form f ++ s)) (amid f s p)
unfolding end_header
parse_first form f s p i l fresh fits short =
    let n : ℕ = length (wire_header form f) in
    parse-wire_header form f s p i l fresh.0
    ∙ rw (zero-add64 n (omega (arith, length-append (wire_header form f) s))) (
        parse_body_more (wire_header form f ++ s) n
          (record (load f p) { masking_key = reported_key f p; state = parsing_body_begin })
          (record {
            chunk_fits = fits;
            payload_fits = omega (arith, i.is_length, i.length_fits);
            parsed_within = omega (arith, length-append (wire_header form f) s);
            body_within = omega (arith, ap (λ (t : List ℕ). length t) fresh.1);
          })
          (omega (
            arith,
            length-append (wire_header form f) s,
            ap (λ (t : List ℕ). length t) fresh.1,
            i.is_length,
          ))
        ∙ cc (
          drop_append (wire_header form f) s n refl,
          fresh.1,
          take_all s (length (wire_header form f ++ s) - n)
              (omega (arith, length-append (wire_header form f) s)),
        ))

-- A piece that does not end the body.
pub parse_next :
    (f : WebsocketFrame) (s t : List ℕ) (p : WebsocketParser)
    → IsSendable f
    → length (s ++ t) < length f.body
    → parse t 0 (amid f s p) ≡ stop true (length t) (amid f (s ++ t) p)
unfolding parse
parse_next f s t p i short =
    parse_body_more t 0 (amid f s p)
      (record {
        chunk_fits = omega (arith, length-append s t, i.length_fits);
        payload_fits = omega (arith, i.is_length, i.length_fits);
        parsed_within = omega arith;
        body_within = omega (arith, i.is_length, length-append s t);
      })
      (omega (arith, i.is_length, length-append s t))
    ∙ cc (take_all t (length t - 0) (omega arith))

-- The piece that ends the body, with anything behind it.
pub parse_last :
    (f : WebsocketFrame) (s t rest : List ℕ) (p : WebsocketParser)
    → IsSendable f
    → f.body ≡ s ++ t
    → length (t ++ rest) < 2 ^ 64
    → parse (t ++ rest) 0 (amid f s p) ≡ record {
      success = true;
      parsed_bytes = length t;
      parser = behind f p;
      complete = some (record f { masking_key = reported_key f p });
    }
unfolding parse on_parsing_complete clean_up
parse_last f s t rest p i e fits =
    let sizes : length f.body ≡ length s + length t =
      ap (λ (u : List ℕ). length u) e ∙ length-append s t in
    let need : f.payload_length - length s ≡ length t = omega (arith, i.is_length, sizes) in
    parse_body_done (t ++ rest) 0 (amid f s p)
      (record {
        chunk_fits = fits;
        payload_fits = omega (arith, i.is_length, i.length_fits);
        parsed_within = omega arith;
        body_within = omega (arith, i.is_length, sizes);
      })
      (omega (arith, need, length-append t rest))
    ∙ cc (need, need_zero, take_append t rest (length t) refl, e, i.no_rsv1, i.no_rsv2, i.no_rsv3)
  where
    need_zero : 0 + length t ≡ length t
    need_zero = omega arith
