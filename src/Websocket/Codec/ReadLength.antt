-- ===== src/Websocket/Codec/ReadLength.antt =====
-- `Parse` behind the first two bytes of a frame: the extended length.
use woody.Shared.{
  ℕ, ◌+◌, ◌^◌, ◌≤◌, ◌<◌, ◌≡◌, refl, ◌∙◌, List, [], ◌∷◌, ◌++◌, length, length-append, ==_iff, ne→==,
  if◌then◌else◌, arith, le→ltb,
}
use woody.Base.Endian.{host_to_network64, host_to_network16, int64_of_network, int16_of_network}
use woody.Websocket.Frame.{WebsocketFrame}
use woody.Websocket.Parser.{
  parsing_header_begin, WebsocketParser, truth, end_header, parse_masking_key, parse_payload_length,
}
use woody.Websocket.Codec.Wire.{
  IsSendable, LengthForm, Fits, in_second_byte, in_two_bytes, in_eight_bytes, extended,
  short_length, key_bytes, wire_header,
}
use woody.Websocket.Codec.ReadBack.{
  parse_masking_key_lem, length-host64, length-host16, length-host32,
}

-- The frame's fields as the parser holds them behind the second byte, and behind the header.
abbrev pub load : WebsocketFrame → WebsocketParser → WebsocketParser
load f p = record p {
  fin = f.fin;
  rsv1 = 0;
  rsv2 = 0;
  rsv3 = 0;
  opcode = f.opcode;
  mask = f.mask;
  payload_length = f.payload_length;
}

-- The key that the parser reports: an unmasked frame leaves the key of an earlier frame in place.
abbrev pub reported_key : WebsocketFrame → WebsocketParser → ℕ
reported_key f p = if truth f.mask then f.masking_key else p.masking_key

-- The parser behind a whole frame.
abbrev pub behind : WebsocketFrame → WebsocketParser → WebsocketParser
behind f p = record p {
  state = parsing_header_begin;
  fin = f.fin;
  rsv1 = 0;
  rsv2 = 0;
  rsv3 = 0;
  opcode = f.opcode;
  mask = f.mask;
  payload_length = f.payload_length;
  masking_key = reported_key f p;
  body = [];
}

-- The extended length is read, or not, according to the low bits of the second byte.
module _ (x y : ℕ) (rest : List ℕ) where
  short_whole :
      (p : WebsocketParser)
      → p.payload_length ≤ 125
      → parse_payload_length (x ∷ y ∷ rest) 0 p ≡ parse_masking_key (x ∷ y ∷ rest) 0 2 p
  unfolding parse_payload_length
  short_whole p h =
      rw (ne→== p.payload_length 127 (omega arith))
        (rw (ne→== p.payload_length 126 (omega arith)) refl)

  medium_whole :
      (n : ℕ) (p : WebsocketParser)
      → n < 2 ^ 16
      → p.payload_length ≡ 126
      → parse_payload_length (x ∷ y ∷ (host_to_network16 n ++ rest)) 0 p
        ≡ parse_masking_key
            (x ∷ y ∷ (host_to_network16 n ++ rest))
            0
            4
            (record p { payload_length = n })
  unfolding parse_payload_length
  medium_whole n p h e = rw (ne→== p.payload_length 127 (omega arith)) (
      rw ((==_iff p.payload_length 126).1 e) (
        rw
          (le→ltb (length (x ∷ y ∷ (host_to_network16 n ++ rest))) 4
            (omega (arith, length-append (host_to_network16 n) rest, length-host16 n)))
          (rw (int16_of_network n rest h) refl)))

  long_whole :
      (n : ℕ) (p : WebsocketParser)
      → n < 2 ^ 64
      → p.payload_length ≡ 127
      → parse_payload_length (x ∷ y ∷ (host_to_network64 n ++ rest)) 0 p
        ≡ parse_masking_key
            (x ∷ y ∷ (host_to_network64 n ++ rest))
            0
            10
            (record p { payload_length = n })
  unfolding parse_payload_length
  long_whole n p h e = rw ((==_iff p.payload_length 127).1 e) (
      rw
        (le→ltb (length (x ∷ y ∷ (host_to_network64 n ++ rest))) 10
          (omega (arith, length-append (host_to_network64 n) rest, length-host64 n)))
        (rw (int64_of_network n rest h) refl))

module _ (form : LengthForm) (f : WebsocketFrame) (s : IsSendable f)
    (l : Fits form f.payload_length) (tail : List ℕ) (x y : ℕ) where
  abbrev pub header_bytes : List ℕ
  header_bytes = x ∷ y ∷ (extended form f.payload_length ++ (key_bytes f ++ tail))

-- The payload length and the key, read behind the two bytes.
pub parse_payload_length_lem :
    (form : LengthForm) (f : WebsocketFrame) (s : IsSendable f) (l : Fits form f.payload_length)
    (tail : List ℕ) (x y : ℕ) (p : WebsocketParser)
    → p.mask ≡ f.mask
    → p.payload_length ≡ short_length form f.payload_length
    → parse_payload_length (header_bytes form f s l tail x y) 0 p
      ≡ end_header
          (header_bytes form f s l tail x y)
          0
          (2 + length (extended form f.payload_length) + length (key_bytes f))
          (record p { payload_length = f.payload_length; masking_key = reported_key f p })
unfolding extended short_length
parse_payload_length_lem in_second_byte f s l tail x y p m len =
    short_whole x y (key_bytes f ++ tail) p (omega (arith, len))
    ∙ parse_masking_key_lem tail f (x ∷ y ∷ []) 2 p refl m s.key_fits
    ∙ cc len
parse_payload_length_lem in_two_bytes f s l tail x y p m len =
    medium_whole x y (key_bytes f ++ tail) f.payload_length p l len
    ∙ parse_masking_key_lem tail f (x ∷ y ∷ host_to_network16 f.payload_length) 4
        (record p { payload_length = f.payload_length })
        (omega (arith, length-host16 f.payload_length)) m s.key_fits
    ∙ cc (length-host16 f.payload_length)
parse_payload_length_lem in_eight_bytes f s l tail x y p m len =
    long_whole x y (key_bytes f ++ tail) f.payload_length p l len
    ∙ parse_masking_key_lem tail f (x ∷ y ∷ host_to_network64 f.payload_length) 10
        (record p { payload_length = f.payload_length })
        (omega (arith, length-host64 f.payload_length)) m s.key_fits
    ∙ cc (length-host64 f.payload_length)

-- A header takes at most fourteen bytes.
pub length-wire_header : (form : LengthForm) (f : WebsocketFrame) → length (wire_header form f) ≤ 14
unfolding wire_header extended key_bytes
length-wire_header in_second_byte f =
    ground (arith, length-append {A = ℕ} [] (key_bytes f), length-host32 f.masking_key)
length-wire_header in_two_bytes f = ground (
  arith,
  length-append (host_to_network16 f.payload_length) (key_bytes f),
  length-host16 f.payload_length,
  length-host32 f.masking_key,
)
length-wire_header in_eight_bytes f = ground (
  arith,
  length-append (host_to_network64 f.payload_length) (key_bytes f),
  length-host64 f.payload_length,
  length-host32 f.masking_key,
)
