-- ===== src/Examples/Interleaving.antt =====
-- Two connections whose reads alternate, and a read whose rest does not fit.
use mathlib.Core.Path.{subst}
use woody.Shared.{
  ℕ, ◌≡◌, refl, true, some, List, [], ◌∷◌, map, Bool-cases, inl, inr, if◌then◌else◌, arith,
}
use woody.Shared.Text.{codes, bytes_eq, bytes_eq→eq}
use woody.Base.StringMap.{Bytes}
use woody.Net.Loop.{overrun}
use woody.Net.Loop.Interleaving.{Ran, run_events, actions_of, reads_of}
use woody.Http.Codec.{HttpCodec, ParserRun}
use woody.Http.Codec.Sequence.{Message, runs, Held, requests_of}
use woody.Http.Handler.{HandlerAction, request_complete, handler_codec, http_handler_on_data}
use woody.Http.Handler.Reads.{http_handler_on_data_overrun}
use woody.Http.Server.Interleaving.{Brings, run_events-requests}
use woody.Http.Service.{message_of, nothing_held}
use woody.Examples.Queue.{Queue, queue}
use woody.Examples.Requesting.{
  client, execute, two_reads-TakesAll, all_callbacks-runs, handler-IsHolding,
}

-- Two connections, `a` and `b`, with the same two reads each.
abbrev alternating : List (Bytes × Queue)
alternating =
    (codes "a", (codes "POST /a", 8))
    ∷ (codes "b", (codes "POST /a", 8))
    ∷ (codes "b", (codes "hi", 8))
    ∷ (codes "a", (codes "hi", 8))
    ∷ []

abbrev handlers : Bytes → ℕ × HttpCodec
handlers j = (0, handler_codec)

abbrev messages : Bytes → List Message
messages j =
    if bytes_eq (codes "a") j
    then message_of client ∷ []
    else if bytes_eq (codes "b") j
    then message_of client ∷ []
    else []

abbrev held_first : Bytes → Held
held_first j = nothing_held

abbrev IsBrought : Bytes → Type 0
IsBrought j = Brings queue execute (reads_of j alternating) (messages j) (held_first j) (handlers j)

IsBrought-a : IsBrought (codes "a")
unfolding bytes_eq
IsBrought-a = record {
  takes = two_reads-TakesAll;
  calls = all_callbacks-runs;
  holding = handler-IsHolding;
}

IsBrought-b : IsBrought (codes "b")
unfolding bytes_eq
IsBrought-b = record {
  takes = two_reads-TakesAll;
  calls = all_callbacks-runs;
  holding = handler-IsHolding;
}

brought : (j : Bytes) → IsBrought j
brought j = elim (Bool-cases (bytes_eq (codes "a") j)) [
  | inl e ↦ subst IsBrought (bytes_eq→eq (codes "a") j e) IsBrought-a
  | inr e ↦ elim (Bool-cases (bytes_eq (codes "b") j)) [
    | inl f ↦ subst IsBrought (bytes_eq→eq (codes "b") j f) IsBrought-b
    | inr f ↦
        rw (e, f) (record { takes = tt; calls = unfold runs in refl; holding = handler-IsHolding })
  ]
]

run_events-requests_example :
    (r : Ran (ℕ × HttpCodec) HandlerAction) × (run_events
        (http_handler_on_data queue execute)
        alternating
        handlers
      ≡ some r)
    × ((j : Bytes)
        → actions_of j r.actions ≡ map request_complete (requests_of (messages j) (held_first j)))
run_events-requests_example =
    run_events-requests queue execute alternating handlers messages held_first brought

-- A parser that stops at the first byte.
abbrev stops : ℕ → Bytes → ParserRun ℕ
stops n bytes = record { parser = n; callbacks = []; bytes_parsed = 1; is_error = true }

http_handler_on_data_overrun_example :
    http_handler_on_data queue stops (codes "?0123456789", 8) (0, handler_codec) ≡ overrun
http_handler_on_data_overrun_example =
    http_handler_on_data_overrun queue stops (codes "?0123456789", 8) 0 handler_codec
      (λ h. absurd cc) (omega arith)
