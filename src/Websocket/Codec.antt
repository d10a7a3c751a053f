-- ===== src/Websocket/Codec.antt =====
-- woody/websocket/websocket_codec.h and websocket_codec.cc: the receiving half and the state. The
-- calls of the registered callbacks, in their order, are a list of events. The callbacks do not
-- reach the codec's state, so running them after the codec's own code makes no difference to it.
pub mod Send
pub mod Wire
pub mod ReadBack
pub mod ReadLength
pub mod RoundTrip
pub mod Assembly
pub mod Frames
pub mod Stream
pub mod Fragments
pub mod Pieces
pub mod Receiving
pub mod Refusals
pub mod Unmasked
pub mod Octets
pub mod Sequences
pub mod Boxes
pub mod Assembler
use woody.Shared.{
  ℕ, Bool, true, false, not, ◌&&◌, Option, none, some, List, [], ◌∷◌, ◌++◌, ◌==◌, if◌then◌else◌,
}
use woody.Websocket.Frame.{
  WebsocketFrame, un_mask, opcode_continuation, opcode_text, opcode_binary, opcode_close,
  opcode_ping, opcode_pong,
}
use woody.Websocket.Message.{
  MessageType, none_message, text_message, binary_message, close_message, ping_message,
  pong_message, WebsocketMessage, new_message, append, clean_up,
}
use woody.Websocket.Parser.{WebsocketParser, ParseResult, construct, truth, parse}

-- A call of one of the callbacks.
pub data Event : Type 0 where
  on_text : WebsocketMessage → Event
  on_binary : WebsocketMessage → Event
  on_close : WebsocketMessage → Event
  on_ping : WebsocketMessage → Event
  on_pong : WebsocketMessage → Event
  on_error : Event

pub record WebsocketCodec : Type 0 where
  pub parser : WebsocketParser
  pub is_expected_masking : Bool
  pub cur_message_type : MessageType
  pub text : WebsocketMessage
  pub binary : WebsocketMessage

-- `WebsocketCodec::WebsocketCodec`; the parser's other fields are not initialised.
abbrev pub new_codec : WebsocketParser → WebsocketCodec
new_codec p = record {
  parser = construct p;
  is_expected_masking = true;
  cur_message_type = none_message;
  text = new_message;
  binary = new_message;
}

-- What a frame's handler returns, the codec after it and the callbacks that it made.
pub record Handled : Type 0 where
  pub success : Bool
  pub codec : WebsocketCodec
  pub events : List Event

pub record HandledBody : Type 0 where
  pub success : Bool
  pub handled_body : List ℕ
  pub events : List Event

abbrev pub is_empty : List ℕ → Bool
is_empty [] = true
is_empty (b ∷ bs) = false

-- `OnCodecError`: logging is left out.
abbrev pub on_codec_error : List Event
on_codec_error = on_error ∷ []

unfoldable pub handle_frame_body : WebsocketFrame → WebsocketCodec → HandledBody
handle_frame_body frame c =
    if is_empty frame.body
    then record { success = true; handled_body = []; events = [] }
    else if truth frame.masking_key && c.is_expected_masking
    then record { success = true; handled_body = un_mask frame.body frame.masking_key; events = [] }
    else if truth frame.masking_key && not c.is_expected_masking
    then record { success = false; handled_body = []; events = on_codec_error }
    else if not (truth frame.masking_key) && c.is_expected_masking
    then record { success = false; handled_body = []; events = on_codec_error }
    else record { success = true; handled_body = []; events = [] }

abbrev pub handled : Bool → WebsocketCodec → List Event → Handled
handled b c es = record { success = b; codec = c; events = es }

-- `OnCodecError(...); return false;`
abbrev pub refuse : WebsocketCodec → Handled
refuse c = handled false c on_codec_error

-- `text_message_.Append(frame_body);` and, on a final frame, the callback and `CleanUp()`.
unfoldable pub append_text : WebsocketFrame → List ℕ → WebsocketCodec → Handled
append_text frame frame_body c =
    let m = append frame_body c.text in
    if frame.fin == 1
    then handled true (record c { text = clean_up m }) (on_text m ∷ [])
    else handled true (record c { text = m }) []

unfoldable pub append_binary : WebsocketFrame → List ℕ → WebsocketCodec → Handled
append_binary frame frame_body c =
    let m = append frame_body c.binary in
    if frame.fin == 1
    then handled true (record c { binary = clean_up m }) (on_binary m ∷ [])
    else handled true (record c { binary = m }) []

-- `cur_message_type_ = t;`
abbrev pub set_type : MessageType → WebsocketCodec → WebsocketCodec
set_type t c = record c { cur_message_type = t }

-- The branches of `OnContinuationFrame` on `cur_message_type_`, before its last assignment.
abbrev pub continue_message : MessageType → WebsocketFrame → List ℕ → WebsocketCodec → Handled
continue_message none_message frame frame_body c = refuse c
continue_message text_message frame frame_body c = append_text frame frame_body c
continue_message binary_message frame frame_body c = append_binary frame frame_body c
continue_message close_message frame frame_body c = handled true c []
continue_message ping_message frame frame_body c = handled true c []
continue_message pong_message frame frame_body c = handled true c []

-- The assignment behind them, which the refusal does not reach.
abbrev pub end_continuation : Handled → Handled
end_continuation r = if r.success then handled true (set_type none_message r.codec) r.events else r

-- Every handler begins with `if (!HandleFrameBody(frame, frame_body)) return false;`.
abbrev pub with_body : WebsocketFrame → WebsocketCodec → (List ℕ → Handled) → Handled
with_body frame c k =
    let b = handle_frame_body frame c in
    if b.success then k b.handled_body else handled false c b.events

unfoldable pub on_continuation_frame : WebsocketFrame → WebsocketCodec → Handled
on_continuation_frame frame c =
    with_body frame c λ body. end_continuation (continue_message c.cur_message_type frame body c)

abbrev pub is_none : MessageType → Bool
is_none none_message = true
is_none text_message = false
is_none binary_message = false
is_none close_message = false
is_none ping_message = false
is_none pong_message = false

-- On a final frame the type goes back to none.
abbrev pub end_message : WebsocketFrame → Handled → Handled
end_message frame r =
    if frame.fin == 1 then handled true (set_type none_message r.codec) r.events else r

unfoldable pub on_text_frame : WebsocketFrame → WebsocketCodec → Handled
on_text_frame frame c = with_body frame c λ body.
    if is_none c.cur_message_type
    then end_message frame (append_text frame body (set_type text_message c))
    else refuse c

unfoldable pub on_binary_frame : WebsocketFrame → WebsocketCodec → Handled
on_binary_frame frame c = with_body frame c λ body.
    if is_none c.cur_message_type
    then end_message frame (append_binary frame body (set_type binary_message c))
    else refuse c

unfoldable pub on_close_frame : WebsocketFrame → WebsocketCodec → Handled
on_close_frame frame c =
    with_body frame c λ body. handled true c (on_close (append body new_message) ∷ [])

unfoldable pub on_ping_frame : WebsocketFrame → WebsocketCodec → Handled
on_ping_frame frame c = with_body frame c λ body. handled true c (on_ping new_message ∷ [])

unfoldable pub on_pong_frame : WebsocketFrame → WebsocketCodec → Handled
on_pong_frame frame c = with_body frame c λ body. handled true c (on_pong new_message ∷ [])

-- The `switch`; an opcode with no case does nothing. What a handler returns is dropped.
unfoldable pub on_parsed_frame : WebsocketFrame → WebsocketCodec → Handled
on_parsed_frame frame c =
    if frame.opcode == opcode_continuation
    then on_continuation_frame frame c
    else if frame.opcode == opcode_text
    then on_text_frame frame c
    else if frame.opcode == opcode_binary
    then on_binary_frame frame c
    else if frame.opcode == opcode_close
    then on_close_frame frame c
    else if frame.opcode == opcode_ping
    then on_ping_frame frame c
    else if frame.opcode == opcode_pong
    then on_pong_frame frame c
    else handled true c []

-- What `OnData` returns, `parsed_bytes` and the codec after it, and the callbacks that it made.
pub record DataResult : Type 0 where
  pub success : Bool
  pub parsed_bytes : ℕ
  pub codec : WebsocketCodec
  pub events : List Event

-- The parser's callback, when it completed a frame. The parser is stored back with it.
unfoldable pub deliver : Option WebsocketFrame → WebsocketCodec → Handled
deliver none c = handled true c []
deliver (some frame) c = on_parsed_frame frame c

unfoldable pub on_data : List ℕ → ℕ → WebsocketCodec → DataResult
on_data bytes parsed_bytes c =
    let r = parse bytes parsed_bytes c.parser in
    let h = deliver r.complete (record c { parser = r.parser }) in
    record {
      success = r.success;
      parsed_bytes = r.parsed_bytes;
      codec = h.codec;
      events = if r.success then h.events else h.events ++ on_codec_error;
    }
