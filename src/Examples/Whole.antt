-- ===== src/Examples/Whole.antt =====
-- A connection that becomes a websocket.
use woody.Shared.{
  arith, ℕ, zero, suc, ◌≡◌, refl, sym, ap, true, false, none, some, inl, inr, List, [], ◌∷◌, ◌++◌,
  All, map, length, Bool-cases, if◌then◌else◌,
}
use woody.Shared.Text.{codes, bytes_eq, bytes_eq→eq}
use woody.Base.StringMap.{Bytes}
use woody.Bytree.Base64.{base64_encode}
use woody.Bytree.Base64.RoundTrip.{base64_decode-base64_encode}
use woody.Http.Response.{set_status, add_body}
use woody.Http.Codec.{
  message_begin, url, header_field, header_value, headers_complete, message_complete,
  ParserCallback, ParserRun, HttpCodec,
}
use woody.Http.Codec.Headers.{Pieces}
use woody.Http.Codec.Sequence.{Message, requests_of, request_of, held_at_end}
use woody.Http.Handler.{handler_codec, request_complete}
use woody.Http.Server.Routing.{first_of}
use woody.Http.Service.{nothing_held}
use woody.Websocket.Codec.Boxes.{no_boxes}
use woody.Websocket.Codec.Assembler.{boxes}
use woody.Websocket.Handler.Delivery.{assemble_stream}
use woody.Websocket.Handler.Session.{all_frames, all_reads}
use woody.Connection.{done, call_end, call_handle_upgrade, HttpApplication, Setting, new_response}
use woody.Connection.Answers.{answers, IsAnswered}
use woody.Connection.Reads.{connection, connection_reads}
use woody.Connection.Upgraded.{
  IsUpgrade, taken, switching, BringsLast, IsUpgraded, connection_reads-IsUpgraded,
}
use woody.Examples.Queue.{Queue, queue}
use woody.Examples.Frames.{parser}
use woody.Examples.Boxed.{any_arrivals, any_arrivals-Holds}
use woody.Examples.Upgrading.{
  nonce, nonce-IsByte, get_digest, int_to_string, string_to_int, split, handler,
}
use woody.Examples.Requesting.{handler-IsHolding}

abbrev pub app : HttpApplication
app req resp =
    if bytes_eq req.url (codes "/ws")
    then call_handle_upgrade handler resp (λ upgraded. done)
    else call_end (add_body (codes "hi") (set_status 200 (codes "OK") resp)) done

abbrev pub setting : Setting
setting = record {
  get_digest = get_digest;
  int_to_string = int_to_string;
  string_to_int = string_to_int;
  split = split;
  status_code = 7;
  server = record { apps = (codes "/", app) ∷ []; handler_map = [] };
}

abbrev pub hello : Message
hello = record {
  urls = codes "/a" ∷ [];
  headers = [];
  method = codes "GET";
  upgrade = false;
  bodies = [];
}

abbrev one_piece : Bytes → Bytes → Pieces
one_piece k v = record { name = k; names = []; value = v; values = [] }

abbrev pub handshake : Message
handshake = record {
  urls = codes "/ws" ∷ [];
  headers =
      one_piece (codes "Sec-WebSocket-Key") (base64_encode nonce)
      ∷ one_piece (codes "Sec-WebSocket-Version") (codes "13")
      ∷ [];
  method = codes "GET";
  upgrade = true;
  bodies = [];
}

abbrev hello_calls : List ParserCallback
hello_calls =
    message_begin ∷ url (codes "/a") ∷ headers_complete (codes "GET") false ∷ message_complete ∷ []

abbrev pub handshake_begins : List ParserCallback
handshake_begins = message_begin ∷ url (codes "/ws") ∷ []

abbrev pub handshake_ends : List ParserCallback
handshake_ends =
    header_field (codes "Sec-WebSocket-Key")
    ∷ header_value (base64_encode nonce)
    ∷ header_field (codes "Sec-WebSocket-Version")
    ∷ header_value (codes "13")
    ∷ headers_complete (codes "GET") true
    ∷ message_complete
    ∷ []

abbrev took_all : ℕ → List ParserCallback → Bytes → ParserRun ℕ
took_all p ks bytes = record {
  parser = p;
  callbacks = ks;
  bytes_parsed = length bytes;
  is_error = false;
}

-- From 0, a request and the beginning of a handshake, and then its end; from 2, a request.
abbrev pub execute : ℕ → Bytes → ParserRun ℕ
execute zero bytes = took_all 1 (hello_calls ++ handshake_begins) bytes
execute (suc zero) bytes = took_all 2 handshake_ends bytes
execute (suc (suc n)) bytes = took_all 2 hello_calls bytes

abbrev pub request_read : Queue
request_read = (codes "GET /a", 8)

abbrev pub handshake_read : Queue
handshake_read = (codes "Sec-", 8)

pub brings :
    BringsLast setting queue execute
      (request_read ∷ [])
      handshake_read
      (hello ∷ [])
      handshake
      nothing_held
      (0, handler_codec)
unfolding woody.Http.Codec.Sequence.runs woody.Http.Codec.Sequence.run
    woody.Http.Codec.Headers.calls
brings = record {
  part = handshake_begins;
  takes = ((λ h. absurd cc), refl, refl, tt);
  takes_last = ((λ h. absurd cc), refl, refl, tt);
  calls = refl;
  inside = (tt, (tt, tt));
  rest = refl;
  holding = handler-IsHolding;
}

pub answered :
    All (IsAnswered setting) (map request_complete (requests_of (hello ∷ []) nothing_held))
unfolding woody.Http.Codec.Sequence.requests_of first_of
    woody.Bytree.StringUtil.is_string_begin_with woody.Bytree.StringUtil.find_from
    woody.Bytree.StringUtil.is_prefix bytes_eq woody.Http.Request.parse_url
    woody.Base.StringMap.insert woody.Base.StringMap.find woody.Shared.Text.bytes_lt new_response
    woody.Http.Request.after_question
answered = (tt, tt)

pub upgrades :
    IsUpgrade setting
      (request_of handshake (held_at_end (hello ∷ []) nothing_held))
      handler
      (new_response 7)
      done
unfolding woody.Http.Codec.Sequence.requests_of first_of
    woody.Bytree.StringUtil.is_string_begin_with woody.Bytree.StringUtil.find_from
    woody.Bytree.StringUtil.is_prefix bytes_eq woody.Http.Request.parse_url
    woody.Base.StringMap.insert woody.Base.StringMap.find woody.Shared.Text.bytes_lt new_response
    woody.Http.Request.after_question woody.Http.Codec.Headers.insert_all
    woody.Http.Codec.Headers.join
upgrades = record {
  app = app;
  goes_on = λ upgraded. done;
  routed = refl;
  asks = refl;
  behind = refl;
  plain = tt;
  accepted = record {
    is_get = refl;
    right_key = inr (
      base64_encode nonce,
      refl,
      ap (λ (s : Bytes). length s) (base64_decode-base64_encode nonce nonce-IsByte (omega arith)),
    );
    right_version = inr (codes "13", refl, refl);
  };
}

connection_reads-IsUpgraded_example :
    IsUpgraded setting queue execute
      (answers setting (map request_complete (requests_of (hello ∷ []) nothing_held)))
      (taken setting handler (request_of handshake (held_at_end (hello ∷ []) nothing_held)))
      done
      (switching setting
        (request_of handshake (held_at_end (hello ∷ []) nothing_held))
        (new_response 7))
      (assemble_stream boxes (all_frames queue any_arrivals) no_boxes)
      (connection_reads setting queue execute
        (((request_read ∷ []) ++ (handshake_read ∷ [])) ++ all_reads queue any_arrivals)
        (connection (0, handler_codec) none))
connection_reads-IsUpgraded_example =
    connection_reads-IsUpgraded setting queue execute (request_read ∷ []) handshake_read
      any_arrivals (hello ∷ []) handshake nothing_held (0, handler_codec) handler (new_response 7)
      done parser brings answered upgrades refl any_arrivals-Holds
