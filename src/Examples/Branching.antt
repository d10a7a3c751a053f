-- ===== src/Examples/Branching.antt =====
-- The read that brings the end of a handshake.
use woody.Shared.{ℕ, refl, Bool, none, List, [], ◌∷◌}
use woody.Http.Request.{HttpRequest}
use woody.Http.Codec.Sequence.{request_of, held_at_end}
use woody.Http.Handler.{handler_codec}
use woody.Http.Handler.Session.Last.{IsCompleted, http_reads-IsCompleted}
use woody.Http.Server.Routing.{first_of}
use woody.Http.Service.{nothing_held}
use woody.Connection.{Program, done, new_response, on_read}
use woody.Connection.Reads.{connection}
use woody.Connection.Branches.{Asks, ReadEnds, on_read-ReadEnds}
use woody.Examples.Queue.{queue}
use woody.Examples.Upgrading.{handler}
use woody.Examples.Whole.{
  app, setting, hello, handshake, execute, request_read, handshake_read, brings,
}

completed :
    IsCompleted queue execute
      (hello ∷ [])
      handshake
      nothing_held
      (request_read ∷ [])
      handshake_read
      (0, handler_codec)
completed =
    http_reads-IsCompleted queue execute (request_read ∷ []) handshake_read (hello ∷ []) handshake
      brings.part nothing_held 0 handler_codec brings.takes brings.takes_last brings.calls
      brings.inside brings.rest brings.holding

abbrev asked : HttpRequest
asked = request_of handshake (held_at_end (hello ∷ []) nothing_held)

abbrev either_way : Bool → Program
either_way upgraded = done

asked-Asks : Asks setting asked handler (new_response 7) either_way
unfolding first_of woody.Bytree.StringUtil.is_string_begin_with woody.Bytree.StringUtil.find_from
    woody.Bytree.StringUtil.is_prefix woody.Shared.Text.bytes_eq woody.Http.Request.parse_url
    woody.Http.Request.after_question new_response
asked-Asks = record { app = app; routed = refl; asks = refl; plain = λ b. tt }

on_read-ReadEnds_example :
    ReadEnds setting completed.buffer completed.behind asked handler
      (new_response 7)
      either_way
      (on_read setting queue execute handshake_read (connection completed.between none))
on_read-ReadEnds_example =
    on_read-ReadEnds setting queue execute handshake_read completed.buffer completed.between
      completed.behind asked handler (new_response 7) either_way completed.last asked-Asks
