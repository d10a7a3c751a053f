-- ===== src/Examples/Early.antt =====
-- A handshake with two bytes of a frame behind it, for a request parser that takes four bytes.
use woody.Shared.{ℕ, zero, suc, ◌≡◌, refl, true, false, none, some, List, [], ◌∷◌, ◌++◌, arith}
use woody.Shared.Text.{codes}
use woody.Base.StringMap.{Bytes}
use woody.Net.Loop.{finished}
use woody.Http.Request.{HttpRequest}
use woody.Http.Codec.{HttpCodec, ParserRun}
use woody.Http.Codec.Sequence.{runs, requests_of, request_of}
use woody.Http.Handler.{force_close, handler_codec}
use woody.Http.Handler.Session.Last.{request_actions}
use woody.Http.Service.{nothing_held}
use woody.Connection.{done, new_response, sends, by_http, on_read}
use woody.Connection.Answers.{calls_of}
use woody.Connection.Reads.{connection}
use woody.Connection.Upgraded.{taken, switching}
use woody.Connection.Early.{IsFollowed, on_read-early}
use woody.Examples.Queue.{Queue, queue}
use woody.Examples.Upgrading.{handler}
use woody.Examples.Requesting.{handler-IsHolding}
use woody.Examples.Whole.{setting, handshake, handshake_begins, handshake_ends, upgrades}

abbrev execute : ℕ → Bytes → ParserRun ℕ
execute zero bytes = record {
  parser = 1;
  callbacks = handshake_begins ++ handshake_ends;
  bytes_parsed = 4;
  is_error = false;
}
execute (suc n) bytes = record { parser = 1; callbacks = []; bytes_parsed = 0; is_error = true }

abbrev early : List ℕ
early = 129 ∷ 130 ∷ []

abbrev both : Queue
both = (codes "GET " ++ early, 8)

abbrev asked : HttpRequest
asked = request_of handshake nothing_held

followed : IsFollowed setting queue execute both 0 handler_codec asked early
unfolding runs requests_of woody.Http.Codec.Sequence.run woody.Http.Codec.Headers.calls
followed = record {
  well = refl;
  completes = request_actions (handshake ∷ []) nothing_held handler_codec handler-IsHolding;
  takes_some = λ h. absurd (omega arith);
  leaves = refl;
  silent = refl;
  takes_none = refl;
  fails = refl;
}

on_read-early_example :
    (b' : Queue) × (s : ℕ × HttpCodec) × (b'.0 ≡ [])
    × (on_read setting queue execute both (connection (0, handler_codec) none)
        ≡ finished b' (connection s (some (taken setting handler asked))) (
            (sends (switching setting asked (new_response 7)) ∷ calls_of setting done)
            ++ (by_http force_close ∷ [])))
on_read-early_example =
    on_read-early setting queue execute both 0 handler_codec asked early handler (new_response 7)
      done followed (λ h. absurd cc) (omega arith) upgrades
