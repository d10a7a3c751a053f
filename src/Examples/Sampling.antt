-- ===== src/Examples/Sampling.antt =====
-- The example's server at work.
use woody.Shared.{ℕ, ◌≡◌, refl, none, some, [], ◌∷◌, All, map, ◌==◌, if◌then◌else◌}
use woody.Shared.Text.{codes}
use woody.Base.StringMap.{Bytes}
use woody.Net.Loop.Reads.{served}
use woody.Http.Request.{HttpRequest}
use woody.Http.Response.ReadBack.{read_message}
use woody.Http.Codec.Sequence.{requests_of}
use woody.Http.Handler.{handler_codec}
use woody.Http.Server.Interleaving.{Brings}
use woody.Http.Service.{message_of, nothing_held}
use woody.Connection.{Setting, sends, Connection}
use woody.Connection.Reads.{connection, connection_reads}
use woody.Sample.{sample, BeginsWithSlash, sample_answers}
use woody.Examples.Queue.{queue}
use woody.Examples.Requesting.{
  client, execute, two_reads, two_reads-TakesAll, all_callbacks-runs, handler-IsHolding,
}
use woody.Examples.Whole.{setting}

abbrev decimal : ℕ → Bytes
decimal n = if n == 200 then codes "200" else if n == 9 then codes "9" else []

abbrev library : Setting
library = record setting { int_to_string = decimal }

brings : Brings queue execute two_reads (message_of client ∷ []) nothing_held (0, handler_codec)
brings = record {
  takes = two_reads-TakesAll;
  calls = all_callbacks-runs;
  holding = handler-IsHolding;
}

slashes : All BeginsWithSlash (requests_of (message_of client ∷ []) nothing_held)
unfolding requests_of woody.Bytree.StringUtil.is_string_begin_with woody.Bytree.StringUtil.find_from
    woody.Bytree.StringUtil.is_prefix woody.Http.Request.parse_url woody.Http.Request.after_question
    woody.Http.Request.span woody.Http.Request.parse_from woody.Http.Request.parse_params
    woody.Http.Request.Params.query woody.Base.StringMap.assign
slashes = (refl, tt)

sample_answers_example :
    (text : Bytes) × (d : Connection ℕ) × (connection_reads
        (sample library)
        queue
        execute
        two_reads
        (connection (0, handler_codec) none)
      ≡ some (
          served d (
            map
              (λ (r : HttpRequest). sends text)
              (requests_of (message_of client ∷ []) nothing_held))))
    × (read_message 3 text ≡ record {
      first = codes "HTTP/1.1 200 OK";
      headers =
          (codes "Content-Length", codes "9") ∷ (codes "header_name", codes "header_value") ∷ [];
      body = codes "I am body";
    })
sample_answers_example =
    sample_answers library queue execute two_reads (message_of client ∷ []) nothing_held
      (0, handler_codec) refl refl brings slashes
