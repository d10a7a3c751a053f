-- ===== src/Websocket/Parser.antt =====
-- woody/websocket/websocket_parser.h and websocket_parser.cc. `size_t` and `uint64_t` wrap at
-- 2 ^ 64. `char` is read as its bit pattern: every use of it is masked. `parsed_bytes`, which the
-- source takes by reference, is an argument and a field of the result. The frame handed to
-- `parsing_complete_callback_` is a field of the result too; logging is left out.
pub mod Body
pub mod Invariant
pub mod Chunks
pub mod Split
use woody.Shared.{
  ℕ, ◌+◌, ◌-◌, ◌/◌, ◌%◌, ◌^◌, Bool, true, false, not, ◌&&◌, ◌||◌, Option, none, some, List, [],
  ◌++◌, length, get_or, take, drop, bit_and, ltb, leb, ◌==◌, if◌then◌else◌,
}
use woody.Base.Endian.{network_to_host_int64, network_to_host_int32, network_to_host_int16}
use woody.Websocket.Frame.{WebsocketFrame}

pub data ParsingState : Type 0 where
  parsing_header_begin parsing_body_begin parsing_complete : ParsingState

-- The fields are not initialised by the constructor, but for `state` and `body`.
pub record WebsocketParser : Type 0 where
  pub state : ParsingState
  pub fin : ℕ
  pub rsv1 : ℕ
  pub rsv2 : ℕ
  pub rsv3 : ℕ
  pub opcode : ℕ
  pub mask : ℕ
  pub payload_length : ℕ
  pub masking_key : ℕ
  pub body : List ℕ

-- The value that `Parse` returns, `parsed_bytes` and the parser after it, and the completed frame.
pub record ParseResult : Type 0 where
  pub success : Bool
  pub parsed_bytes : ℕ
  pub parser : WebsocketParser
  pub complete : Option WebsocketFrame

abbrev pub add64 : ℕ → ℕ → ℕ
add64 a b = (a + b) % 2 ^ 64

abbrev pub sub64 : ℕ → ℕ → ℕ
sub64 a b = (a + 2 ^ 64 - b) % 2 ^ 64

-- `(c >> k) & 1`
abbrev pub bit_at : ℕ → ℕ → ℕ
bit_at c k = bit_and (c / 2 ^ k) 1

-- `WebsocketParser::WebsocketParser`, over the values that the other fields happen to have.
abbrev pub construct : WebsocketParser → WebsocketParser
construct p = record p { state = parsing_header_begin; body = [] }

unfoldable pub clean_up : WebsocketParser → WebsocketParser
clean_up p = record p { body = []; state = parsing_header_begin }

abbrev pub frame_of : WebsocketParser → WebsocketFrame
frame_of p = record {
  fin = p.fin;
  rsv1 = p.rsv1;
  rsv2 = p.rsv2;
  rsv3 = p.rsv3;
  opcode = p.opcode;
  mask = p.mask;
  payload_length = p.payload_length;
  masking_key = p.masking_key;
  body = p.body;
}

-- A return with no frame.
abbrev pub stop : Bool → ℕ → WebsocketParser → ParseResult
stop b n p = record { success = b; parsed_bytes = n; parser = p; complete = none }

-- `return parsed_bytes` of a function that returns `bool`.
abbrev pub truth : ℕ → Bool
truth n = not (n == 0)

unfoldable pub on_parsing_complete : ℕ → WebsocketParser → ParseResult
unfolding clean_up
on_parsing_complete n p = record {
  success = true;
  parsed_bytes = n;
  parser = clean_up p;
  complete = some (frame_of p);
}

-- From `size_t body_need_bytes` on.
unfoldable pub parse_body : List ℕ → ℕ → WebsocketParser → ParseResult
parse_body bytes parsed_bytes p =
    let need = sub64 p.payload_length (length p.body) in
    let left = sub64 (length bytes) parsed_bytes in
    if leb need left
    then on_parsing_complete (add64 parsed_bytes need) (record p {
      body = p.body ++ take need (drop parsed_bytes bytes);
      state = parsing_complete;
    })
    else stop true (add64 parsed_bytes left)
        (record p { body = p.body ++ take left (drop parsed_bytes bytes) })

-- `parsed_bytes += header_bytes; state_ = kParsingBodyBegin;`
unfoldable pub end_header : List ℕ → ℕ → ℕ → WebsocketParser → ParseResult
end_header bytes parsed_bytes header_bytes p =
    parse_body bytes (add64 parsed_bytes header_bytes) (record p { state = parsing_body_begin })

-- `if (mask_) { ... }`, with `header_bytes` read.
unfoldable pub parse_masking_key : List ℕ → ℕ → ℕ → WebsocketParser → ParseResult
parse_masking_key bytes parsed_bytes header_bytes p =
    if p.mask == 0
    then end_header bytes parsed_bytes header_bytes p
    else if ltb (length bytes) (header_bytes + 4)
    then stop true parsed_bytes p
    else end_header bytes parsed_bytes (header_bytes + 4)
        (record p { masking_key = network_to_host_int32 (drop header_bytes bytes) })

-- The extended payload length, behind two bytes.
unfoldable pub parse_payload_length : List ℕ → ℕ → WebsocketParser → ParseResult
parse_payload_length bytes parsed_bytes p =
    if p.payload_length == 127
    then (if ltb (length bytes) (2 + 8)
        then stop true parsed_bytes p
        else parse_masking_key bytes parsed_bytes (2 + 8)
            (record p { payload_length = network_to_host_int64 (drop 2 bytes) }))
    else if p.payload_length == 126
    then (if ltb (length bytes) (2 + 2)
        then stop true parsed_bytes p
        else parse_masking_key bytes parsed_bytes (2 + 2)
            (record p { payload_length = network_to_host_int16 (drop 2 bytes) }))
    else parse_masking_key bytes parsed_bytes 2 p

unfoldable pub parse_second_byte : List ℕ → ℕ → WebsocketParser → ParseResult
parse_second_byte bytes parsed_bytes p =
    if ltb (length bytes) 2
    then stop (truth parsed_bytes) parsed_bytes p
    else let second_byte = get_or bytes 1 0 in
      let q = record p { mask = bit_at second_byte 7; payload_length = bit_and second_byte 0x7f } in
      if ltb 127 q.opcode && ltb 125 q.payload_length
      then stop false parsed_bytes q
      else parse_payload_length bytes parsed_bytes q

-- The three checks of the first byte.
unfoldable pub is_first_byte_refused : WebsocketParser → Bool
is_first_byte_refused p =
    (truth p.rsv1 || (truth p.rsv2 || truth p.rsv3))
    || ((ltb 2 p.opcode && ltb p.opcode 8) || ltb 0xa p.opcode)
    || (ltb 0x7 p.opcode && p.fin == 0)

abbrev pub read_first_byte : ℕ → WebsocketParser → WebsocketParser
read_first_byte first_byte p = record p {
  fin = bit_at first_byte 7;
  rsv1 = bit_at first_byte 6;
  rsv2 = bit_at first_byte 5;
  rsv3 = bit_at first_byte 4;
  opcode = bit_and first_byte 0xf;
}

unfoldable pub parse_header : List ℕ → ℕ → WebsocketParser → ParseResult
parse_header bytes parsed_bytes p =
    if ltb (length bytes) 1
    then stop (truth parsed_bytes) parsed_bytes p
    else let q = read_first_byte (get_or bytes 0 0) p in
      if is_first_byte_refused q
      then stop false parsed_bytes q
      else parse_second_byte bytes parsed_bytes q

abbrev pub dispatch : ParsingState → List ℕ → ℕ → WebsocketParser → ParseResult
dispatch parsing_header_begin = parse_header
dispatch parsing_body_begin = parse_body
dispatch parsing_complete = parse_body

unfoldable pub parse : List ℕ → ℕ → WebsocketParser → ParseResult
parse bytes parsed_bytes p = dispatch p.state bytes parsed_bytes p
