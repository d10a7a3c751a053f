-- ===== src/Websocket/Parser/Body.antt =====
-- The body phase of `Parse`, without its wrap-around.
use woody.Shared.{ℕ, ◌+◌, ◌-◌, ◌^◌, ◌≤◌, ◌<◌, ◌≡◌, true, List, ◌++◌, length, take, drop, arith}
use woody.Websocket.Parser.{
  WebsocketParser, parsing_complete, add64, sub64, stop, on_parsing_complete, parse_body,
}

pub add64_lem : (a b : ℕ) → a + b < 2 ^ 64 → add64 a b ≡ a + b
add64_lem a b h = omega arith

pub zero-add64 : (h : ℕ) → h < 2 ^ 64 → add64 0 h ≡ h
zero-add64 h lt = omega arith

pub sub64_lem : (a b : ℕ) → a < 2 ^ 64 → b ≤ a → sub64 a b ≡ a - b
sub64_lem a b h k = omega arith

-- The lengths of a payload and of a chunk fit their types, and the payload is not overrun.
pub record InRange (bytes : List ℕ) (parsed_bytes : ℕ) (p : WebsocketParser) : Type 0 where
  pub chunk_fits : length bytes < 2 ^ 64
  pub payload_fits : p.payload_length < 2 ^ 64
  pub parsed_within : parsed_bytes ≤ length bytes
  pub body_within : length p.body ≤ p.payload_length

-- The parser with `n` more bytes of the payload, and the results of the two branches.
abbrev pub extend : List ℕ → ℕ → ℕ → WebsocketParser → WebsocketParser
extend bytes parsed_bytes n p = record p { body = p.body ++ take n (drop parsed_bytes bytes) }

pub parse_body_done :
    (bytes : List ℕ) (n : ℕ) (p : WebsocketParser)
    → InRange bytes n p
    → p.payload_length - length p.body ≤ length bytes - n
    → parse_body bytes n p
      ≡ on_parsing_complete (n + (p.payload_length - length p.body)) (record p {
        body = p.body ++ take (p.payload_length - length p.body) (drop n bytes);
        state = parsing_complete;
      })
unfolding parse_body
parse_body_done bytes n p r h = ground (
  arith,
  sub64_lem p.payload_length (length p.body) r.payload_fits r.body_within,
  sub64_lem (length bytes) n r.chunk_fits r.parsed_within,
  add64_lem n (p.payload_length - length p.body) (omega arith),
)

pub parse_body_more :
    (bytes : List ℕ) (n : ℕ) (p : WebsocketParser)
    → InRange bytes n p
    → length bytes - n < p.payload_length - length p.body
    → parse_body bytes n p ≡ stop true (length bytes) (extend bytes n (length bytes - n) p)
unfolding parse_body
parse_body_more bytes n p r h = ground (
  arith,
  sub64_lem p.payload_length (length p.body) r.payload_fits r.body_within,
  sub64_lem (length bytes) n r.chunk_fits r.parsed_within,
  add64_lem n (length bytes - n) (omega arith),
)
