-- ===== src/Websocket/Parser/Split.antt =====
-- The header stages over a chunk that holds the whole header: what follows the chunk makes no
-- difference to them.
use woody.Shared.{
  ℕ, ◌+◌, ◌^◌, ◌≤◌, ◌<◌, ◌≡◌, refl, ap, Bool, true, false, List, ◌++◌, length, drop, get_or, arith,
  length-append, inl, inr, Bool-cases, ltb, ◌==◌, bit_and, ◌&&◌, ltb→le, le→ltb, take-drop-append,
  get_or-append, All, if◌then◌else◌,
}
use woody.Shared.Bits.{bit_and_low_seven}
use woody.Base.Endian.{
  IsByte, get_or-IsByte, All-drop, network_to_host_int64, network_to_host_int32,
  network_to_host_int16, network_to_host_int64-lt, network_to_host_int16-lt,
}
use woody.Websocket.Parser.{
  ParsingState, parsing_header_begin, parsing_body_begin, parsing_complete, WebsocketParser,
  ParseResult, stop, end_header, parse_masking_key, parse_payload_length, parse_second_byte,
  is_first_byte_refused, read_first_byte, parse_header, parse, dispatch, bit_at,
}
use woody.Websocket.Parser.Body.{zero-add64}
use woody.Websocket.Parser.Invariant.{IsReady, IsFresh, Phase}
use woody.Websocket.Parser.Chunks.{is_past_header, resume, parse_body-append}

int64-append :
    (n : ℕ) (a b : List ℕ)
    → n + 8 ≤ length a
    → network_to_host_int64 (drop n (a ++ b)) ≡ network_to_host_int64 (drop n a)
unfolding network_to_host_int64
int64-append n a b h = rw (take-drop-append n 8 a b h) refl

int32-append :
    (n : ℕ) (a b : List ℕ)
    → n + 4 ≤ length a
    → network_to_host_int32 (drop n (a ++ b)) ≡ network_to_host_int32 (drop n a)
unfolding network_to_host_int32
int32-append n a b h = rw (take-drop-append n 4 a b h) refl

int16-append :
    (n : ℕ) (a b : List ℕ)
    → n + 2 ≤ length a
    → network_to_host_int16 (drop n (a ++ b)) ≡ network_to_host_int16 (drop n a)
unfolding network_to_host_int16
int16-append n a b h = rw (take-drop-append n 2 a b h) refl

-- A return from inside the header is not past it.
not_past : (b : Bool) (p : WebsocketParser) → IsFresh p → is_past_header (stop b 0 p) ≡ false
not_past b p f = rw f.0 refl

module _ (a b : List ℕ) (fits : length (a ++ b) < 2 ^ 64) (are_bytes : All IsByte a) where
  long_enough : (k : ℕ) → ltb (length a) k ≡ false → ltb (length (a ++ b)) k ≡ false
  long_enough k h = le→ltb _ _ (omega (arith, ltb→le _ _ h, length-append a b))

  end_header-append :
      (h : ℕ) (p : WebsocketParser)
      → h ≤ length a
      → IsFresh p
      → p.payload_length < 2 ^ 64
      → end_header (a ++ b) 0 h p ≡ resume (end_header a 0 h p) b
  unfolding end_header
  end_header-append h p within f payload = rw (zero-add64 h (omega (arith, length-append a b))) (
      parse_body-append a b fits h (record p { state = parsing_body_begin })
        (record {
          chunk_fits = omega (arith, length-append a b);
          payload_fits = payload;
          parsed_within = within;
          body_within = omega (arith, ap length f.1);
        }))

  -- One test of the chunk's length, in front of a continuation: `k` bytes must be there.
  guard_append :
      (k : ℕ) (p : WebsocketParser) (v : Bool) (whole part : ParseResult)
      → IsFresh p
      → is_past_header (if ltb (length a) k then stop v 0 p else part) ≡ true
      → (k ≤ length a → is_past_header part ≡ true → whole ≡ resume part b)
      → (if ltb (length (a ++ b)) k then stop v 0 p else whole)
        ≡ resume (if ltb (length a) k then stop v 0 p else part) b
  guard_append k p v whole part f past next = elim (Bool-cases (ltb (length a) k)) [
    | inl short ↦ cc (not_past v p f)
    | inr long ↦ rw long (rw (long_enough k long) (next (ltb→le _ _ long) (rw long at past)))
  ]

  parse_masking_key-append :
      (h : ℕ) (p : WebsocketParser)
      → h ≤ length a
      → IsFresh p
      → p.payload_length < 2 ^ 64
      → is_past_header (parse_masking_key a 0 h p) ≡ true
      → parse_masking_key (a ++ b) 0 h p ≡ resume (parse_masking_key a 0 h p) b
  unfolding parse_masking_key
  parse_masking_key-append h p within f payload past = elim (Bool-cases (p.mask == 0)) [
    | inl e ↦ rw e (end_header-append h p within f payload)
    | inr e ↦ rw e (
        guard_append (h + 4) p true _ _ f (rw e at past)
          (λ k _. rw (int32-append h a b k) (end_header-append (h + 4) _ k f payload)))
  ]

  parse_payload_length-append :
      (p : WebsocketParser)
      → 2 ≤ length a
      → IsFresh p
      → p.payload_length < 2 ^ 64
      → is_past_header (parse_payload_length a 0 p) ≡ true
      → parse_payload_length (a ++ b) 0 p ≡ resume (parse_payload_length a 0 p) b
  unfolding parse_payload_length
  parse_payload_length-append p within f payload past =
      elim (Bool-cases (p.payload_length == 127)) [
        | inl e ↦ rw e (
            guard_append (2 + 8) p true _ _ f (rw e at past) (λ k past'. rw (int64-append 2 a b k) (
              parse_masking_key-append 10 _ k f
                (network_to_host_int64-lt _ (All-drop 2 a are_bytes)) past')))
        | inr e ↦ rw e (elim (Bool-cases (p.payload_length == 126)) [
          | inl e' ↦ rw e' (
              guard_append (2 + 2) p true _ _ f (rw (e, e') at past) (λ k past'.
                rw (int16-append 2 a b k) (
                  parse_masking_key-append 4 _ k f
                    (omega (arith, network_to_host_int16-lt _ (All-drop 2 a are_bytes))) past')))
          | inr e' ↦ rw e' (parse_masking_key-append 2 p within f payload (rw (e, e') at past))
        ])
      ]

  parse_second_byte-append :
      (p : WebsocketParser)
      → IsFresh p
      → is_past_header (parse_second_byte a 0 p) ≡ true
      → parse_second_byte (a ++ b) 0 p ≡ resume (parse_second_byte a 0 p) b
  unfolding parse_second_byte
  parse_second_byte-append p f past = guard_append 2 p false _ _ f past λ k past'.
      rw (get_or-append a b 1 0 k)
        (elim (Bool-cases (ltb 127 p.opcode && ltb 125 (bit_and (get_or a 1 0) 0x7f))) [
          | inl e ↦ cc (
            not_past false
                (record p {
                  mask = bit_at (get_or a 1 0) 7;
                  payload_length = bit_and (get_or a 1 0) 0x7f;
                })
                f,
            rw e at past',
          )
          | inr e ↦ rw e (
              parse_payload_length-append _ k f
                (omega (arith, bit_and_low_seven _ (get_or-IsByte a 1 are_bytes))) (rw e at past'))
        ])

  parse_header-append :
      (p : WebsocketParser)
      → IsFresh p
      → is_past_header (parse_header a 0 p) ≡ true
      → parse_header (a ++ b) 0 p ≡ resume (parse_header a 0 p) b
  unfolding parse_header
  parse_header-append p f past = guard_append 1 p false _ _ f past λ k past'.
      rw (get_or-append a b 0 0 k)
        (elim (Bool-cases (is_first_byte_refused (read_first_byte (get_or a 0 0) p))) [
          | inl e ↦ cc (not_past false (read_first_byte (get_or a 0 0) p) f, rw e at past')
          | inr e ↦ rw e (parse_second_byte-append _ f (rw e at past'))
        ])

  dispatch-append :
      (s : ParsingState) (p : WebsocketParser)
      → p.state ≡ s
      → Phase s p
      → is_past_header (dispatch s a 0 p) ≡ true
      → dispatch s (a ++ b) 0 p ≡ resume (dispatch s a 0 p) b
  dispatch-append parsing_header_begin p e h past = parse_header-append p (e, h) past
  dispatch-append parsing_body_begin p e h past = parse_body-append a b fits 0 p (record {
    chunk_fits = omega (arith, length-append a b);
    payload_fits = h.1;
    parsed_within = omega arith;
    body_within = omega (arith, h.0);
  })
  dispatch-append parsing_complete p e h past = absurd h

-- If a ready parser gets past the header on a first chunk of bytes, then `Parse` on the chunk with
-- more bytes behind it, which fits `size_t`, is its result on the first chunk, the frame and all,
-- when that completed a frame; and else what the payload phase makes of the other bytes, with
-- `parsed_bytes` added up.
pub parse-append :
    (a b : List ℕ) (p : WebsocketParser)
    → length (a ++ b) < 2 ^ 64
    → All IsByte a
    → IsReady p
    → is_past_header (parse a 0 p) ≡ true
    → parse (a ++ b) 0 p ≡ resume (parse a 0 p) b
unfolding parse
parse-append a b p fits are_bytes ready past =
    dispatch-append a b fits are_bytes p.state p refl ready past
