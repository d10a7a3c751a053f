-- ===== src/Websocket/Parser/Chunks.antt =====
-- A frame that arrives in two chunks: once the header has been read, parsing the second chunk
-- behind the first gives what parsing both at once gives.
use woody.Shared.{
  ℕ, ◌+◌, ◌-◌, ◌^◌, ◌≤◌, ◌<◌, ◌≡◌, refl, sym, Bool, true, false, Option, none, some, List, ◌++◌,
  append_assoc, length, take, drop, arith, length-append, length-take, length-drop, inl, inr,
  Bool-cases, leb, leb→le, leb→lt, take-append_ge, drop-append_le, take_all, take-drop-append,
}
use woody.Websocket.Frame.{WebsocketFrame}
use woody.Websocket.Parser.{
  ParsingState, parsing_header_begin, parsing_body_begin, parsing_complete, WebsocketParser,
  ParseResult, stop, on_parsing_complete, parse_body, clean_up,
}
use woody.Websocket.Parser.Body.{InRange, extend, parse_body_done, parse_body_more}

abbrev has_frame : Option WebsocketFrame → ParsingState → Bool
has_frame (some f) s = true
has_frame none parsing_header_begin = false
has_frame none parsing_body_begin = true
has_frame none parsing_complete = true

-- Whether a call of `Parse` read a whole header, or found the parser behind one.
abbrev pub is_past_header : ParseResult → Bool
is_past_header r = has_frame r.complete r.parser.state

abbrev after : Option WebsocketFrame → ParseResult → List ℕ → ParseResult
after (some f) r more = r
after none r more =
    let next = parse_body more 0 r.parser in
    record next { parsed_bytes = r.parsed_bytes + next.parsed_bytes }

-- A completed frame leaves the second chunk alone; else it goes on with the payload.
abbrev pub resume : ParseResult → List ℕ → ParseResult
resume r more = after r.complete r more

module _ (a b : List ℕ) (fits : length (a ++ b) < 2 ^ 64) where
  whole_InRange : (n : ℕ) (p : WebsocketParser) → InRange a n p → InRange (a ++ b) n p
  whole_InRange n p r = record {
    chunk_fits = fits;
    payload_fits = r.payload_fits;
    parsed_within = omega (arith, length-append a b, r.parsed_within);
    body_within = r.body_within;
  }

  parse_body-append_done :
      (n : ℕ) (p : WebsocketParser)
      → InRange a n p
      → p.payload_length - length p.body ≤ length a - n
      → parse_body (a ++ b) n p ≡ resume (parse_body a n p) b
  unfolding on_parsing_complete
  parse_body-append_done n p r h = rw (parse_body_done a n p r h) (
      rw (parse_body_done (a ++ b) n p (whole_InRange n p r) (omega (arith, length-append a b))) (
        rw
          (take-drop-append n (p.payload_length - length p.body) a b
            (omega (arith, r.parsed_within)))
          refl))

  rest_InRange :
      (n : ℕ) (p : WebsocketParser)
      → InRange a n p
      → length a - n < p.payload_length - length p.body
      → InRange b 0 (extend a n (length a - n) p)
  rest_InRange n p r h = record {
    chunk_fits = omega (arith, length-append a b);
    payload_fits = r.payload_fits;
    parsed_within = omega arith;
    body_within = omega (
      arith,
      length-append p.body (take (length a - n) (drop n a)),
      length-take (length a - n) (drop n a),
      length-drop n a,
    );
  }

  length-extend :
      (n : ℕ) (p : WebsocketParser)
      → length (p.body ++ take (length a - n) (drop n a)) ≡ length p.body + (length a - n)
  length-extend n p = omega (
    arith,
    length-append p.body (take (length a - n) (drop n a)),
    length-take (length a - n) (drop n a),
    length-drop n a,
  )

  -- The payload's bytes that the two chunks give, cut at `k` from the first chunk's position.
  payload-append :
      (n k : ℕ) (body : List ℕ)
      → n ≤ length a
      → length a - n ≤ k
      → body ++ take k (drop n (a ++ b))
        ≡ (body ++ take (length a - n) (drop n a)) ++ take (k - (length a - n)) b
  payload-append n k body within h = rw (drop-append_le a b n within) (
      rw (take-append_ge (drop n a) b k (omega (arith, length-drop n a))) (
        rw (length-drop n a) (
          rw (take_all (drop n a) (length a - n) (omega (arith, length-drop n a)))
            (sym (append_assoc body (drop n a) (take (k - (length a - n)) b))))))

  parse_body-append_more_done :
      (n : ℕ) (p : WebsocketParser)
      → InRange a n p
      → length a - n < p.payload_length - length p.body
      → p.payload_length - length p.body ≤ length (a ++ b) - n
      → parse_body (a ++ b) n p ≡ after none (stop true (length a) (extend a n (length a - n) p)) b
  unfolding on_parsing_complete clean_up
  parse_body-append_more_done n p r h k =
      let gap : p.payload_length - length (p.body ++ take (length a - n) (drop n a))
          ≡ p.payload_length - length p.body - (length a - n) =
        omega (arith, length-extend n p) in
      rw (parse_body_done (a ++ b) n p (whole_InRange n p r) k) (
        rw
          (parse_body_done b 0 (extend a n (length a - n) p) (rest_InRange n p r h)
            (omega (arith, length-extend n p, length-append a b)))
          (rw gap (
            cc (
              payload-append n (p.payload_length - length p.body) p.body r.parsed_within
                  (omega arith),
              count,
            ))))
    where
      count :
          n + (p.payload_length - length p.body)
          ≡ length a + (0 + (p.payload_length - length p.body - (length a - n)))
      count = omega (arith, r.parsed_within)

  parse_body-append_more_more :
      (n : ℕ) (p : WebsocketParser)
      → InRange a n p
      → length a - n < p.payload_length - length p.body
      → length (a ++ b) - n < p.payload_length - length p.body
      → parse_body (a ++ b) n p ≡ after none (stop true (length a) (extend a n (length a - n) p)) b
  parse_body-append_more_more n p r h k =
      rw (parse_body_more (a ++ b) n p (whole_InRange n p r) k) (
        rw
          (parse_body_more b 0 (extend a n (length a - n) p) (rest_InRange n p r h)
            (omega (arith, length-extend n p, length-append a b)))
          (cc (
            payload-append n (length (a ++ b) - n) p.body r.parsed_within
                (omega (arith, length-append a b)),
            length-append a b,
            cut,
          )))
    where
      cut : length (a ++ b) - n - (length a - n) ≡ length b - 0
      cut = omega (arith, length-append a b, r.parsed_within)

  pub parse_body-append :
      (n : ℕ) (p : WebsocketParser)
      → InRange a n p
      → parse_body (a ++ b) n p ≡ resume (parse_body a n p) b
  parse_body-append n p r =
      elim (Bool-cases (leb (p.payload_length - length p.body) (length a - n))) [
        | inl h ↦ parse_body-append_done n p r (leb→le _ _ h)
        | inr h ↦
            rw (parse_body_more a n p r (leb→lt _ _ h))
              (elim (Bool-cases (leb (p.payload_length - length p.body) (length (a ++ b) - n))) [
                | inl k ↦ parse_body-append_more_done n p r (leb→lt _ _ h) (leb→le _ _ k)
                | inr k ↦ parse_body-append_more_more n p r (leb→lt _ _ h) (leb→lt _ _ k)
              ])
      ]
