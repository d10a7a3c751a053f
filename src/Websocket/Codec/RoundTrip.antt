-- ===== src/Websocket/Codec/RoundTrip.antt =====
-- `Parse` on a frame in its wire form, whatever its length form.
use woody.Shared.{
  ℕ, suc, ◌+◌, ◌*◌, ◌/◌, ◌^◌, ◌≤◌, ◌<◌, ◌≡◌, refl, ◌∙◌, true, false, some, List, ◌++◌, append_assoc,
  length, length-append, bit_and, arith, le→ltb, ap,
}
use woody.Shared.Bits.{bit_and_one, bit_and_fifteen, bit_and_low_seven}
use woody.Websocket.Frame.{WebsocketFrame}
use woody.Websocket.Parser.{
  WebsocketParser, parsing_header_begin, end_header, parse_second_byte, is_first_byte_refused,
  read_first_byte, parse_header, parse, bit_at,
}
use woody.Websocket.Parser.Invariant.{IsFresh, parse_fresh}
use woody.Websocket.Codec.Wire.{
  IsOpcode, IsSendable, LengthForm, Fits, in_second_byte, in_two_bytes, in_eight_bytes, extended,
  short_length, key_bytes, wire_header, wire,
}
use woody.Websocket.Codec.ReadBack.{end_header_whole}
use woody.Websocket.Codec.ReadLength.{
  load, reported_key, behind, header_bytes, parse_payload_length_lem,
}

-- A first byte with no extension bits, a defined opcode and no fragmented control frame is
-- accepted.
accepted :
    (q : WebsocketParser)
    → q.rsv1 ≡ 0
    → q.rsv2 ≡ 0
    → q.rsv3 ≡ 0
    → IsOpcode q.opcode
    → (8 ≤ q.opcode → q.fin ≡ 1)
    → is_first_byte_refused q ≡ false
unfolding is_first_byte_refused
accepted q r1 r2 r3 o c = ground arith

-- The fields of the first byte.
first_byte_fields :
    (x fin opcode : ℕ)
    → fin ≤ 1
    → opcode < 16
    → x ≡ fin * 128 + opcode
    → (bit_at x 7 ≡ fin)
      × (bit_at x 6 ≡ 0)
      × (bit_at x 5 ≡ 0)
      × (bit_at x 4 ≡ 0)
      × (bit_and x 15 ≡ opcode)
first_byte_fields x fin opcode h k e = (
  omega (arith, bit_and_one (x / 2 ^ 7) (omega arith)),
  omega (arith, bit_and_one (x / 2 ^ 6) (omega arith)),
  omega (arith, bit_and_one (x / 2 ^ 5) (omega arith)),
  omega (arith, bit_and_one (x / 2 ^ 4) (omega arith)),
  omega (arith, bit_and_fifteen x (omega arith)),
)

short_length-lt : (form : LengthForm) (n : ℕ) → Fits form n → short_length form n < 128
unfolding short_length
short_length-lt in_second_byte n h = omega arith
short_length-lt in_two_bytes n h = omega arith
short_length-lt in_eight_bytes n h = omega arith

module _ (form : LengthForm) (f : WebsocketFrame) (s : IsSendable f)
    (l : Fits form f.payload_length) (tail : List ℕ) (x y : ℕ) where
  parse_second_byte_lem :
      (p : WebsocketParser)
      → p.opcode ≤ 127
      → y ≡ f.mask * 128 + short_length form f.payload_length
      → parse_second_byte (header_bytes form f s l tail x y) 0 p
        ≡ end_header
            (header_bytes form f s l tail x y)
            0
            (2 + length (extended form f.payload_length) + length (key_bytes f))
            (record p {
              mask = f.mask;
              payload_length = f.payload_length;
              masking_key = reported_key f p;
            })
  unfolding parse_second_byte
  parse_second_byte_lem p small e =
      let m : bit_at y 7 ≡ f.mask =
        omega
          (arith, short, bit_and_one (y / 2 ^ 7) (omega (arith, s.mask_bit, short)), s.mask_bit) in
      let low : bit_and y 0x7f ≡ short_length form f.payload_length =
        omega (arith, short, bit_and_low_seven y (omega (arith, s.mask_bit, short)), s.mask_bit) in
      rw
        (
          le→ltb (length (header_bytes form f s l tail x y)) 2 (omega arith),
          le→ltb 127 p.opcode small,
        )
        (parse_payload_length_lem form f s l tail x y
            (record p { mask = bit_at y 7; payload_length = bit_and y 0x7f }) m low
          ∙ cc m)
    where
      short : short_length form f.payload_length < 128
      short = short_length-lt form f.payload_length l

  parse_header_lem :
      (p : WebsocketParser)
      → x ≡ f.fin * 128 + f.opcode
      → y ≡ f.mask * 128 + short_length form f.payload_length
      → parse_header (header_bytes form f s l tail x y) 0 p
        ≡ end_header
            (header_bytes form f s l tail x y)
            0
            (2 + length (extended form f.payload_length) + length (key_bytes f))
            (record (load f p) { masking_key = reported_key f p })
  unfolding parse_header
  parse_header_lem p ex ey =
      let (b7, b6, b5, b4, low) =
        first_byte_fields x f.fin f.opcode s.fin_bit (omega (arith, s.is_opcode)) ex in
      rw
        (
          le→ltb (length (header_bytes form f s l tail x y)) 1 (omega arith),
          accepted (read_first_byte x p) b6 b5 b4 (rw low s.is_opcode)
              (rw (b7, low) s.whole_control),
        )
        (parse_second_byte_lem (read_first_byte x p) (omega (arith, low, s.is_opcode)) ey
          ∙ cc (b7, b6, b5, b4, low))

-- A chunk that begins with a frame's header is parsed up to the end of the header.
pub parse-wire_header :
    (form : LengthForm) (f : WebsocketFrame) (tail : List ℕ) (p : WebsocketParser)
    → IsSendable f
    → Fits form f.payload_length
    → p.state ≡ parsing_header_begin
    → parse (wire_header form f ++ tail) 0 p
      ≡ end_header
          (wire_header form f ++ tail)
          0
          (length (wire_header form f))
          (record (load f p) { masking_key = reported_key f p })
unfolding wire_header
parse-wire_header form f tail p s l e =
    parse_fresh (wire_header form f ++ tail) 0 p e
    ∙ rw (append_assoc (extended form f.payload_length) (key_bytes f) tail) (
        parse_header_lem form f s l tail (f.fin * 128 + f.opcode)
          (f.mask * 128 + short_length form f.payload_length) p refl refl
        ∙ cc count)
  where
    count :
        2 + length (extended form f.payload_length) + length (key_bytes f)
        ≡ suc (suc (length (extended form f.payload_length ++ key_bytes f)))
    count = omega (arith, length-append (extended form f.payload_length) (key_bytes f))

-- A parser that waits for a header, given a chunk that fits `size_t` and begins with the wire form
-- of a frame that fits the wire format, with its length in any form that it fits, completes exactly
-- that frame, takes exactly its bytes, and waits for a header again. The key it reports is the frame's key if the frame is masked, and else
-- the key that the parser held before.
pub parse-wire :
    (form : LengthForm) (f : WebsocketFrame) (rest : List ℕ) (p : WebsocketParser)
    → IsSendable f
    → Fits form f.payload_length
    → length (wire form f ++ rest) < 2 ^ 64
    → IsFresh p
    → parse (wire form f ++ rest) 0 p ≡ record {
      success = true;
      parsed_bytes = length (wire form f);
      parser = behind f p;
      complete = some (record f { masking_key = reported_key f p });
    }
unfolding wire
parse-wire form f rest p s l fits fresh =
    ap (λ (bytes : List ℕ). parse bytes 0 p) (append_assoc (wire_header form f) f.body rest)
    ∙ parse-wire_header form f (f.body ++ rest) p s l fresh.0
    ∙ end_header_whole (wire_header form f) f.body rest
        (record (load f p) { masking_key = reported_key f p })
        (rw (append_assoc (wire_header form f) f.body rest) at fits) fresh.1 s.is_length
    ∙ cc (length-append (wire_header form f) f.body, s.no_rsv1, s.no_rsv2, s.no_rsv3)
