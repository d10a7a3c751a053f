-- ===== src/Websocket/Parser/Invariant.antt =====
-- The invariant of the parser.
use native.Mathlib.Nat.{le_refl}
use woody.Shared.{
  ℕ, ◌+◌, ◌-◌, ◌^◌, ◌≤◌, ◌<◌, ◌≡◌, refl, Bool, true, false, List, [], length, take, drop, get_or,
  All, arith, length-append, length-take, length-drop, inl, inr, Bool-cases, ltb, leb, ◌==◌,
  bit_and, ◌&&◌, ltb→le, leb→le, leb→lt, leb, ap,
}
use woody.Shared.Bits.{bit_and_low_seven}
use woody.Base.Endian.{
  IsByte, get_or-IsByte, All-drop, network_to_host_int64-lt, network_to_host_int16-lt,
}
use woody.Websocket.Parser.{
  ParsingState, parsing_header_begin, parsing_body_begin, parsing_complete, WebsocketParser,
  ParseResult, stop, on_parsing_complete, parse_body, end_header, parse_masking_key,
  parse_payload_length, parse_second_byte, is_first_byte_refused, read_first_byte, parse_header,
  parse, dispatch, clean_up,
}
use woody.Websocket.Parser.Body.{InRange, extend, parse_body_done, parse_body_more, zero-add64}

-- Between two calls the parser waits for a header, with no payload bytes, or for the rest of a
-- payload of which a byte at least is missing.
abbrev pub Phase : ParsingState → WebsocketParser → Type 0
Phase parsing_header_begin p = p.body ≡ []
Phase parsing_body_begin p = (length p.body < p.payload_length) × (p.payload_length < 2 ^ 64)
Phase parsing_complete p = ⊥

abbrev pub IsReady : WebsocketParser → Type 0
IsReady p = Phase p.state p

-- A result leaves a ready parser and has not read past the chunk.
pub record IsSound (bytes : List ℕ) (r : ParseResult) : Type 0 where
  pub ready : IsReady r.parser
  pub within : r.parsed_bytes ≤ length bytes

complete-IsSound :
    (bytes : List ℕ) (n : ℕ) (p : WebsocketParser)
    → n ≤ length bytes
    → IsSound bytes (on_parsing_complete n p)
unfolding on_parsing_complete clean_up
complete-IsSound bytes n p h = record { ready = refl; within = h }

more-IsSound :
    (bytes : List ℕ) (n : ℕ) (p : WebsocketParser)
    → InRange bytes n p
    → p.state ≡ parsing_body_begin
    → length bytes - n < p.payload_length - length p.body
    → IsSound bytes (stop true (length bytes) (extend bytes n (length bytes - n) p))
more-IsSound bytes n p r e h = record {
  ready = rw e (
    omega (
      arith,
      length-append p.body (take (length bytes - n) (drop n bytes)),
      length-take (length bytes - n) (drop n bytes),
      length-drop n bytes,
    ),
    r.payload_fits,
  );
  within = le_refl _;
}

pub parse_body-IsSound :
    (bytes : List ℕ) (n : ℕ) (p : WebsocketParser)
    → InRange bytes n p
    → p.state ≡ parsing_body_begin
    → IsSound bytes (parse_body bytes n p)
parse_body-IsSound bytes n p r e =
    elim (Bool-cases (leb (p.payload_length - length p.body) (length bytes - n))) [
      | inl h ↦
          rw (parse_body_done bytes n p r (leb→le _ _ h))
            (complete-IsSound bytes _ _ (omega (arith, r.parsed_within, leb→le _ _ h)))
      | inr h ↦
          rw (parse_body_more bytes n p r (leb→lt _ _ h))
            (more-IsSound bytes n p r e (leb→lt _ _ h))
    ]

-- A parser that waits for a header, whatever the header's fields hold.
abbrev pub IsFresh : WebsocketParser → Type 0
IsFresh p = (p.state ≡ parsing_header_begin) × (p.body ≡ [])

stop-IsSound :
    (bytes : List ℕ) (b : Bool) (p : WebsocketParser) → IsFresh p → IsSound bytes (stop b 0 p)
stop-IsSound bytes b p f = record { ready = rw (f.0) (f.1); within = omega arith }

module _ (bytes : List ℕ) (fits : length bytes < 2 ^ 64) (are_bytes : All IsByte bytes) where
  pub end_header-IsSound :
      (h : ℕ) (p : WebsocketParser)
      → h ≤ length bytes
      → p.body ≡ []
      → p.payload_length < 2 ^ 64
      → IsSound bytes (end_header bytes 0 h p)
  unfolding end_header
  end_header-IsSound h p within e payload = rw (zero-add64 h (omega arith)) (
      parse_body-IsSound bytes h (record p { state = parsing_body_begin })
        (record {
          chunk_fits = fits;
          payload_fits = payload;
          parsed_within = within;
          body_within = omega (arith, ap length e);
        })
        refl)

  parse_masking_key-IsSound :
      (h : ℕ) (p : WebsocketParser)
      → h ≤ length bytes
      → IsFresh p
      → p.payload_length < 2 ^ 64
      → IsSound bytes (parse_masking_key bytes 0 h p)
  unfolding parse_masking_key
  parse_masking_key-IsSound h p within f payload = elim (Bool-cases (p.mask == 0)) [
    | inl e ↦ rw e (end_header-IsSound h p within f.1 payload)
    | inr e ↦ rw e (elim (Bool-cases (ltb (length bytes) (h + 4))) [
      | inl short ↦ rw short (stop-IsSound bytes true p f)
      | inr long ↦ rw long (end_header-IsSound (h + 4) _ (ltb→le _ _ long) f.1 payload)
    ])
  ]

  parse_payload_length-IsSound :
      (p : WebsocketParser)
      → 2 ≤ length bytes
      → IsFresh p
      → p.payload_length < 2 ^ 64
      → IsSound bytes (parse_payload_length bytes 0 p)
  unfolding parse_payload_length
  parse_payload_length-IsSound p within f payload = elim (Bool-cases (p.payload_length == 127)) [
    | inl e ↦ rw e (elim (Bool-cases (ltb (length bytes) (2 + 8))) [
      | inl short ↦ rw short (stop-IsSound bytes true p f)
      | inr long ↦ rw long (
          parse_masking_key-IsSound 10 _ (ltb→le _ _ long) f
            (network_to_host_int64-lt _ (All-drop 2 bytes are_bytes)))
    ])
    | inr e ↦ rw e (elim (Bool-cases (p.payload_length == 126)) [
      | inl e' ↦ rw e' (elim (Bool-cases (ltb (length bytes) (2 + 2))) [
        | inl short ↦ rw short (stop-IsSound bytes true p f)
        | inr long ↦ rw long (
            parse_masking_key-IsSound 4 _ (ltb→le _ _ long) f
              (omega (arith, network_to_host_int16-lt _ (All-drop 2 bytes are_bytes))))
      ])
      | inr e' ↦ rw e' (parse_masking_key-IsSound 2 p within f payload)
    ])
  ]

  parse_second_byte-IsSound :
      (p : WebsocketParser) → IsFresh p → IsSound bytes (parse_second_byte bytes 0 p)
  unfolding parse_second_byte
  parse_second_byte-IsSound p f = elim (Bool-cases (ltb (length bytes) 2)) [
    | inl short ↦ rw short (stop-IsSound bytes false p f)
    | inr long ↦
        rw long (elim (Bool-cases (ltb 127 p.opcode && ltb 125 (bit_and (get_or bytes 1 0) 0x7f))) [
          | inl e ↦ rw e (stop-IsSound bytes false _ f)
          | inr e ↦ rw e (
              parse_payload_length-IsSound _ (ltb→le _ _ long) f
                (omega (arith, bit_and_low_seven _ (get_or-IsByte bytes 1 are_bytes))))
        ])
  ]

  parse_header-IsSound : (p : WebsocketParser) → IsFresh p → IsSound bytes (parse_header bytes 0 p)
  unfolding parse_header
  parse_header-IsSound p f = elim (Bool-cases (ltb (length bytes) 1)) [
    | inl short ↦ rw short (stop-IsSound bytes false p f)
    | inr long ↦
        rw long (elim (Bool-cases (is_first_byte_refused (read_first_byte (get_or bytes 0 0) p))) [
          | inl e ↦ rw e (stop-IsSound bytes false _ f)
          | inr e ↦ rw e (parse_second_byte-IsSound _ f)
        ])
  ]

  dispatch-IsSound :
      (s : ParsingState) (p : WebsocketParser)
      → p.state ≡ s
      → Phase s p
      → IsSound bytes (dispatch s bytes 0 p)
  dispatch-IsSound parsing_header_begin p e h = parse_header-IsSound p (e, h)
  dispatch-IsSound parsing_body_begin p e h =
      parse_body-IsSound bytes 0 p
        (record {
          chunk_fits = fits;
          payload_fits = h.1;
          parsed_within = omega arith;
          body_within = omega (arith, h.0);
        })
        e
  dispatch-IsSound parsing_complete p e h = absurd h

-- On a chunk of bytes whose length fits `size_t`, `Parse` by a ready parser leaves it ready on
-- every branch, the failing ones included, and does not count more bytes than the chunk has.
pub parse-IsSound :
    (bytes : List ℕ) (p : WebsocketParser)
    → length bytes < 2 ^ 64
    → All IsByte bytes
    → IsReady p
    → IsSound bytes (parse bytes 0 p)
unfolding parse
parse-IsSound bytes p fits are_bytes ready =
    dispatch-IsSound bytes fits are_bytes p.state p refl ready

-- The calls that the parser's state selects.
pub parse_fresh :
    (bytes : List ℕ) (n : ℕ) (p : WebsocketParser)
    → p.state ≡ parsing_header_begin
    → parse bytes n p ≡ parse_header bytes n p
unfolding parse
parse_fresh bytes n p e = ap (λ (s : ParsingState). dispatch s bytes n p) e
