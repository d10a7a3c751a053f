-- ===== src/Websocket/Handler/Short.antt =====
-- Buffers that hold less than a frame's header.
use native.Mathlib.Nat.{le_refl}
use woody.Shared.{
  not, ◌||◌, ℕ, zero, suc, ◌/◌, ◌%◌, ◌^◌, ◌≤◌, ◌<◌, ◌≡◌, ◌≢◌, refl, ap, ◌∙◌, Bool, true, false,
  List, [], ◌∷◌, length, arith, ◌==◌, ne→==, lt→ltb, le→ltb, bit_and, if◌then◌else◌,
}
use woody.Shared.Bits.{bit_and_one, bit_and_low_seven, bit_and_fifteen}
use woody.Net.Buffer.{Buffer}
use woody.Net.Loop.{Fed, finished, loop, on_data}
use woody.Net.Loop.Rounds.{loop_stop}
use woody.Websocket.Parser.{
  WebsocketParser, stop, parse, parse_header, parse_second_byte, parse_payload_length,
  parse_masking_key, is_first_byte_refused, read_first_byte, bit_at,
}
use woody.Websocket.Parser.Invariant.{IsFresh, parse_fresh}
use woody.Websocket.Codec.{WebsocketCodec, DataResult, deliver, on_error}
use woody.Websocket.Codec
use woody.Websocket.Handler.{Action, force_close, feed, handler_on_data}

-- A header that lacks bytes of its masking key.
pub record IsCut (x y : ℕ) (key : List ℕ) : Type 0 where
  pub first_byte : x < 256
  pub no_extension : (x / 2 ^ 4) % 8 ≡ 0
  pub data_opcode : x % 16 ≤ 2
  pub second_byte : y < 256
  pub masked : 128 ≤ y
  pub short_form : y % 128 ≤ 125
  pub cut : length key < 4

abbrev second : ℕ → WebsocketParser → WebsocketParser
second y p = record p { mask = bit_at y 7; payload_length = bit_and y 0x7f }

parse_one_byte :
    (x : ℕ) (p : WebsocketParser)
    → IsFresh p
    → parse (x ∷ []) 0 p ≡ stop false 0 (read_first_byte x p)
parse_one_byte x p f =
    parse_fresh (x ∷ []) 0 p f.0 ∙ unfold parse_header parse_second_byte in ground arith

or_true : (v : Bool) → (v || (0 == 0)) ≡ true
or_true true = refl
or_true false = refl

not_refused :
    (x : ℕ) (p : WebsocketParser)
    → x < 256
    → (x / 2 ^ 4) % 8 ≡ 0
    → x % 16 ≤ 2
    → is_first_byte_refused (read_first_byte x p) ≡ false
unfolding is_first_byte_refused
not_refused x p h r o = ground (
  arith,
  bit_and_one (x / 2 ^ 6) (omega arith),
  bit_and_one (x / 2 ^ 5) (omega arith),
  bit_and_one (x / 2 ^ 4) (omega arith),
  bit_and_fifteen x h,
)

parse_masking_key_cut :
    (bytes : List ℕ) (p : WebsocketParser)
    → (p.mask == 0) ≡ false
    → length bytes < 6
    → parse_masking_key bytes 0 2 p ≡ stop true 0 p
unfolding parse_masking_key
parse_masking_key_cut bytes p m h = rw (m, lt→ltb (length bytes) 6 h) refl

parse_cut :
    (x y : ℕ) (key : List ℕ) (p : WebsocketParser)
    → IsCut x y key
    → IsFresh p
    → parse (x ∷ y ∷ key) 0 p ≡ stop true 0 (second y (read_first_byte x p))
unfolding parse_header parse_second_byte parse_payload_length
parse_cut x y key p c f =
    let low : bit_and y 0x7f ≤ 125 =
      omega (arith, bit_and_low_seven y c.second_byte, c.short_form) in
    let m : (bit_at y 7 == 0) ≡ false = ne→== (bit_at y 7) 0 (
      omega
        (arith, bit_and_one (y / 2 ^ 7) (omega (arith, c.second_byte)), c.second_byte, c.masked)) in
    parse_fresh (x ∷ y ∷ key) 0 p f.0
    ∙ rw
        (
          le→ltb (length (x ∷ y ∷ key)) 1 (omega arith),
          not_refused x p c.first_byte c.no_extension c.data_opcode,
          le→ltb (length (x ∷ y ∷ key)) 2 (omega arith),
          le→ltb 127 (bit_and x 0xf) (omega (arith, bit_and_fifteen x c.first_byte)),
          ne→== (bit_and y 0x7f) 127 (omega arith),
          ne→== (bit_and y 0x7f) 126 (omega arith),
        )
        (parse_masking_key_cut (x ∷ y ∷ key) (second y (read_first_byte x p)) m
          (omega (arith, c.cut)))

abbrev stopped : Bool → WebsocketParser → WebsocketCodec → Fed WebsocketCodec Action
stopped v q c = record {
  success = v;
  parsed_bytes = 0;
  codec = record c { parser = q };
  events = if v then [] else (force_close ∷ []);
}

feed-stopped :
    (v : Bool) (bytes : List ℕ) (c : WebsocketCodec) (q : WebsocketParser)
    → parse bytes 0 c.parser ≡ stop v 0 q
    → feed bytes c ≡ stopped v q c
unfolding feed Codec.on_data deliver
feed-stopped true bytes c q e = rw e refl
feed-stopped false bytes c q e = rw e refl

module _ (m : Buffer) where
  open m use {Buf, readable, retrieve_all}

  -- If the parser takes nothing, the loop ends, and what the buffer held is gone.
  loop-stopped :
      (v : Bool) (fuel : ℕ) (b : Buf) (c : WebsocketCodec) (q : WebsocketParser)
      → length (readable b) ≢ 0
      → length (readable b) ≤ fuel
      → parse (readable b) 0 c.parser ≡ stop v 0 q
      → loop m feed fuel b c []
        ≡ finished (retrieve_all b) (record c { parser = q }) (stopped v q c).events
  loop-stopped v zero b c q h enough e = absurd (h (omega arith))
  loop-stopped v (suc fuel) b c q h enough e =
      let fed = feed-stopped v (readable b) c q e in
      loop_stop m feed fuel b c [] (λ z. h (ap length z)) (rw fed (or_true (not v))) ∙ rw fed refl

  -- A read that brings one byte alone closes the connection: whatever the byte, a handler that
  -- waits for a header takes it for an error, and the byte is gone.
  pub handler_on_data_one_byte :
      (x : ℕ) (b : Buf) (c : WebsocketCodec)
      → readable b ≡ x ∷ []
      → IsFresh c.parser
      → handler_on_data m b c
        ≡ finished
            (retrieve_all b)
            (record c { parser = read_first_byte x c.parser })
            (force_close ∷ [])
  unfolding handler_on_data on_data
  handler_on_data_one_byte x b c holds f =
      loop-stopped false (length (readable b)) b c (read_first_byte x c.parser)
        (omega (arith, ap length holds)) (le_refl _) (rw holds (parse_one_byte x c.parser f))

  -- A handler that waits for a header gets a read that ends inside the masking key of a data frame
  -- with a payload of at most 125 bytes: it makes no callback and leaves an empty buffer, and its
  -- parser still waits for a header, so the bytes are lost.
  pub handler_on_data_cut :
      (x y : ℕ) (key : List ℕ) (b : Buf) (c : WebsocketCodec)
      → readable b ≡ x ∷ y ∷ key
      → IsCut x y key
      → IsFresh c.parser
      → (c' : WebsocketCodec) × (handler_on_data m b c ≡ finished (retrieve_all b) c' [])
        × (readable (retrieve_all b) ≡ [])
        × IsFresh c'.parser
  unfolding handler_on_data on_data
  handler_on_data_cut x y key b c holds cut f = (
    record c { parser = second y (read_first_byte x c.parser) },
    loop-stopped true (length (readable b)) b c (second y (read_first_byte x c.parser))
        (omega (arith, ap length holds)) (le_refl _) (rw holds (parse_cut x y key c.parser cut f)),
    m.retrieve_all_empties b,
    f,
  )
