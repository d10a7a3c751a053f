-- ===== src/Http/Codec.antt =====
-- woody/http/http_codec.h and http_codec.cc. The request parser below it, `http_parser_execute`,
-- is a parameter: a run of it gives the callbacks that it makes, in order, the bytes that it took
-- and its error. Each `static` callback of the codec returns 0, since the method that it calls
-- returns true, so the parser's run does not depend on the codec.
pub mod Headers
pub mod Runs
pub mod Bodies
pub mod HeaderMap
pub mod Sequence
use woody.Shared.{
  ℕ, ◌+◌, ◌%◌, ◌^◌, Bool, true, false, Option, none, some, List, [], ◌∷◌, ◌++◌, if◌then◌else◌,
}
use woody.Base.StringMap.{Bytes}
use woody.Http.Request.{
  HttpRequest, new_request, add_header, set_url, set_method, set_body, set_upgrade, parse_url,
  clean_up,
}

-- A call of one of the registered `http_parser_settings`. With `headers_complete` come the name of
-- `parser_.method` and `parser_.upgrade == 1`, which the codec reads at that call.
pub data ParserCallback : Type 0 where
  message_begin : ParserCallback
  url : Bytes → ParserCallback
  header_field : Bytes → ParserCallback
  header_value : Bytes → ParserCallback
  headers_complete : Bytes → Bool → ParserCallback
  body : Bytes → ParserCallback
  message_complete : ParserCallback

-- One run: the parser after it, the callbacks, the bytes parsed, and whether `http_errno` is
-- neither `HPE_OK` nor `HPE_PAUSED`.
pub record ParserRun (P : Type 0) : Type 0 where
  pub parser : P
  pub callbacks : List ParserCallback
  pub bytes_parsed : ℕ
  pub is_error : Bool

pub data HeaderParseState : Type 0 where
  parse_header_nothing parse_header_begin parse_header_name parse_header_value
        parse_header_complete :
      HeaderParseState

-- The callbacks that may be unset are flags here.
pub record HttpCodec : Type 0 where
  pub parse_state : HeaderParseState
  pub is_headers_complete : Bool
  pub is_body_complete : Bool
  pub is_upgrade_complete : Bool
  pub cur_header_value : Bytes
  pub cur_header_name : Bytes
  pub cur_stream_id : ℕ
  pub request : HttpRequest
  pub has_message_begin : Bool
  pub has_message_complete : Bool
  pub has_headers_complete : Bool

abbrev pub new_codec : HttpCodec
new_codec = record {
  parse_state = parse_header_nothing;
  is_headers_complete = false;
  is_body_complete = false;
  is_upgrade_complete = false;
  cur_header_value = [];
  cur_header_name = [];
  cur_stream_id = 0;
  request = new_request;
  has_message_begin = false;
  has_message_complete = false;
  has_headers_complete = false;
}

-- The calls of the codec's callbacks.
pub data HttpEvent : Type 0 where
  on_begin : ℕ → HttpEvent
  on_complete : ℕ → HttpRequest → HttpEvent
  on_headers : HttpEvent
  on_error : HttpEvent

pub record CodecStep : Type 0 where
  pub codec : HttpCodec
  pub events : List HttpEvent

abbrev pub step : HttpCodec → List HttpEvent → CodecStep
step c es = record { codec = c; events = es }

-- `return ++cur_stream_id_;` of a `uint32_t`.
unfoldable pub create_stream_id : HttpCodec → HttpCodec
create_stream_id c = record c { cur_stream_id = (c.cur_stream_id + 1) % 2 ^ 32 }

unfoldable pub on_message_begin : HttpCodec → CodecStep
on_message_begin c =
    step (record c { parse_state = parse_header_begin })
      (if c.has_message_begin then on_begin c.cur_stream_id ∷ [] else [])

unfoldable pub on_url : Bytes → HttpCodec → CodecStep
on_url s c = step (record c { request = set_url s c.request }) []

-- The branches on `parseState_`; in the two other states only the state changes.
abbrev pub take_name : HeaderParseState → Bytes → HttpCodec → HttpCodec
take_name parse_header_value s c = record c {
  request = add_header c.cur_header_name c.cur_header_value c.request;
  cur_header_name = s;
}
take_name parse_header_name s c = record c { cur_header_name = c.cur_header_name ++ s }
take_name parse_header_begin s c = record c { cur_header_name = c.cur_header_name ++ s }
take_name parse_header_nothing s c = c
take_name parse_header_complete s c = c

unfoldable pub on_header_field : Bytes → HttpCodec → CodecStep
on_header_field s c =
    let d = take_name c.parse_state s c in step (record d { parse_state = parse_header_name }) []

abbrev pub take_value : HeaderParseState → Bytes → HttpCodec → HttpCodec
take_value parse_header_name s c = record c { cur_header_value = s }
take_value parse_header_value s c = record c { cur_header_value = c.cur_header_value ++ s }
take_value parse_header_nothing s c = c
take_value parse_header_begin s c = c
take_value parse_header_complete s c = c

unfoldable pub on_header_value : Bytes → HttpCodec → CodecStep
on_header_value s c =
    let d = take_value c.parse_state s c in step (record d { parse_state = parse_header_value }) []

-- The result of `ParseUrl`; for its fuel see `Request.Params`.
abbrev pub parsed : Option HttpRequest → HttpRequest → HttpRequest
parsed none r = r
parsed (some r') r = r'

unfoldable pub on_headers_complete : Bytes → Bool → HttpCodec → CodecStep
on_headers_complete method upgrade c =
    let r = set_method method (add_header c.cur_header_name c.cur_header_value c.request) in
    let q = parsed (parse_url r) r in
    step (record c { is_headers_complete = true; request = if upgrade then set_upgrade q else q })
      (if c.has_headers_complete then on_headers ∷ [] else [])

unfoldable pub on_body : Bytes → HttpCodec → CodecStep
on_body s c = step (record c { request = set_body s c.request }) []

-- The callback gets a copy of the request, which is cleaned up behind it.
unfoldable pub on_message_complete : HttpCodec → CodecStep
on_message_complete c =
    if c.has_message_complete
    then step (record c { request = clean_up c.request })
        (on_complete c.cur_stream_id c.request ∷ [])
    else step c []

abbrev pub on_callback : ParserCallback → HttpCodec → CodecStep
on_callback message_begin c = on_message_begin c
on_callback (url s) c = on_url s c
on_callback (header_field s) c = on_header_field s c
on_callback (header_value s) c = on_header_value s c
on_callback (headers_complete method upgrade) c = on_headers_complete method upgrade c
on_callback (body s) c = on_body s c
on_callback message_complete c = on_message_complete c

-- The callbacks of one run.
unfoldable pub on_callbacks : List ParserCallback → HttpCodec → CodecStep
on_callbacks [] c = step c []
on_callbacks (k ∷ ks) c =
    let a = on_callback k c in
    let rest = on_callbacks ks a.codec in step rest.codec (a.events ++ rest.events)

pub record CodecData (P : Type 0) : Type 0 where
  pub parser : P
  pub bytes_parsed : ℕ
  pub codec : HttpCodec
  pub events : List HttpEvent

module _ {P : Type 0} (execute : P → Bytes → ParserRun P) where
  -- `HTTPCodec::OnData`
  unfoldable pub on_data : Bytes → P → HttpCodec → CodecData P
  on_data bytes p c =
      let run = execute p bytes in
      let s = on_callbacks run.callbacks c in
      record {
        parser = run.parser;
        bytes_parsed = run.bytes_parsed;
        codec = s.codec;
        events = if run.is_error then s.events ++ (on_error ∷ []) else s.events;
      }
