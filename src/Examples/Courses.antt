-- ===== src/Examples/Courses.antt =====
-- Two connections of a server: one that becomes a websocket, and a plain one.
use mathlib.Core.Path.{subst}
use woody.Shared.{
  ℕ, zero, suc, ◌≡◌, refl, sym, ap, true, false, none, some, inl, inr, List, [], ◌∷◌, ◌++◌, All,
  map, length, Bool-cases, if◌then◌else◌,
}
use woody.Shared.Text.{codes, bytes_eq, bytes_eq→eq}
use woody.Base.StringMap.{Bytes}
use woody.Net.Loop.Interleaving.{Ran, run_events, actions_of, reads_of}
use woody.Http.Codec.{
  message_begin, url, header_field, header_value, headers_complete, message_complete,
  ParserCallback, ParserRun, HttpCodec,
}
use woody.Http.Codec.Headers.{Pieces}
use woody.Http.Codec.Sequence.{Message, requests_of, request_of, held_at_end}
use woody.Http.Handler.{handler_codec, request_complete}
use woody.Http.Server.Routing.{first_of}
use woody.Http.Service.{nothing_held}
use woody.Websocket.Handler.Delivery.{stream}
use woody.Websocket.Handler.Session.{all_reads}
use woody.Connection.{done, ConnectionAction, Connection, on_read, new_response}
use woody.Connection.Answers.{IsAnswered}
use woody.Connection.Reads.{connection}
use woody.Connection.Courses.{Course, plain, websocket, expected, run_events-expected}
use woody.Examples.Queue.{Queue, queue}
use woody.Examples.Frames.{parser}
use woody.Examples.Handling.{two}
use woody.Examples.Connecting.{first_read, second_read}
use woody.Examples.Boxed.{any_arrivals, any_arrivals-Holds, odd_read}
use woody.Examples.Upgrading.{handler}
use woody.Examples.Requesting.{handler-IsHolding}
use woody.Examples.Whole.{
  setting, hello, handshake, execute, request_read, handshake_read, brings, answered, upgrades,
}

-- The reads of both, in turn.
abbrev in_turn : List (Bytes × Queue)
in_turn =
    (codes "a", request_read)
    ∷ (codes "b", request_read)
    ∷ (codes "a", handshake_read)
    ∷ (codes "a", (stream two, 8))
    ∷ (codes "b", request_read)
    ∷ (codes "a", (odd_read, 8))
    ∷ (codes "a", first_read)
    ∷ (codes "a", second_read)
    ∷ []

abbrev starts : Bytes → ℕ × HttpCodec
starts j = (if bytes_eq (codes "b") j then 2 else 0, handler_codec)

abbrev CourseOf : Bytes → Type 0
CourseOf j = Course setting queue execute (reads_of j in_turn) (starts j)

course_a : CourseOf (codes "a")
unfolding bytes_eq all_reads
course_a = websocket (record {
  first = request_read ∷ [];
  last = handshake_read;
  arrivals = any_arrivals;
  reads = refl;
  qs = hello ∷ [];
  q = handshake;
  held = nothing_held;
  brings = brings;
  answered = answered;
  handler = handler;
  response = new_response 7;
  program = done;
  upgrades = upgrades;
  parser = parser;
  made = refl;
  holds = any_arrivals-Holds;
})

IsAnswered-twice :
    All (IsAnswered setting) (map request_complete (requests_of (hello ∷ hello ∷ []) nothing_held))
unfolding woody.Http.Codec.Sequence.requests_of first_of
    woody.Bytree.StringUtil.is_string_begin_with woody.Bytree.StringUtil.find_from
    woody.Bytree.StringUtil.is_prefix bytes_eq woody.Http.Request.parse_url
    woody.Base.StringMap.insert woody.Base.StringMap.find woody.Shared.Text.bytes_lt new_response
    woody.Http.Request.after_question
IsAnswered-twice = (tt, (tt, tt))

course_b : CourseOf (codes "b")
unfolding bytes_eq woody.Http.Codec.Sequence.runs woody.Http.Codec.Sequence.run
    woody.Http.Codec.Headers.calls
course_b = plain (record {
  qs = hello ∷ hello ∷ [];
  held = nothing_held;
  brings = record {
    takes = ((λ h. absurd cc), refl, refl, ((λ h. absurd cc), refl, refl, tt));
    calls = refl;
    holding = handler-IsHolding;
  };
  answered = IsAnswered-twice;
})

nothing_read : (j : Bytes) → Course setting queue execute [] (starts j)
nothing_read j = plain (record {
  qs = [];
  held = nothing_held;
  brings = record {
    takes = tt;
    calls = unfold woody.Http.Codec.Sequence.runs in refl;
    holding = handler-IsHolding;
  };
  answered = unfold requests_of in tt;
})

nothing_else :
    (j : Bytes)
    → bytes_eq (codes "a") j ≡ false
    → bytes_eq (codes "b") j ≡ false
    → reads_of j in_turn ≡ []
nothing_else j e f = rw (e, f) refl

courses : (j : Bytes) → CourseOf j
courses j = elim (Bool-cases (bytes_eq (codes "a") j)) [
  | inl e ↦ subst CourseOf (bytes_eq→eq (codes "a") j e) course_a
  | inr e ↦ elim (Bool-cases (bytes_eq (codes "b") j)) [
    | inl f ↦ subst CourseOf (bytes_eq→eq (codes "b") j f) course_b
    | inr f ↦
        subst (λ (bs : List Queue). Course setting queue execute bs (starts j))
          (sym (nothing_else j e f)) (nothing_read j)
  ]
]

run_events-expected_example :
    (r : Ran (Connection ℕ) ConnectionAction) × (run_events
        (on_read setting queue execute)
        in_turn
        (λ j. connection (starts j) none)
      ≡ some r)
    × ((j : Bytes) → actions_of j r.actions ≡ expected setting queue execute (courses j))
run_events-expected_example = run_events-expected setting queue execute in_turn starts courses
