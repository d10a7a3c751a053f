-- ===== src/Examples/Requesting.antt =====
-- A request in two reads, by a parser that reports it in pieces.
use woody.Shared.{
  Bool-cases, inl, inr, ℕ, zero, suc, ◌≡◌, refl, false, some, List, [], ◌∷◌, ◌++◌, length, All,
}
use mathlib.Core.Path.{subst}
use woody.Shared.Text.{codes, bytes_eq, bytes_eq→eq}
use woody.Base.StringMap.{Bytes}
use woody.Http.Request.{HttpRequest, is_question}
use woody.Http.Request.Params.{query, IsParam}
use woody.Http.Codec.{
  message_begin, url, header_field, header_value, headers_complete, body, message_complete,
  ParserRun, HttpCodec, on_callbacks,
}
use woody.Http.Codec.HeaderMap.{first_value}
use woody.Http.Codec.Headers.{join, whole, Pieces, calls}
use woody.Http.Codec.Sequence.{
  Message, run, runs, requests_of, IsHolding, announcements, held_at_end,
}
use woody.Http.Codec.Sequence.Announced.{on_callbacks-runs}
use woody.Http.Handler.{request_complete, handler_codec}
use woody.Http.Handler.Session.{
  TakesAll, all_callbacks, http_reads, IsSession, http_reads-IsSession,
}
use woody.Http.Service.{
  on_callbacks_reordered, ClientRequest, message_of, nothing_held, IsFound, http_reads-IsFound,
}
use woody.Net.Loop.Reads.{served}
use woody.Examples.Queue.{Queue, queue}

-- One header in pieces, and a body.
abbrev host : Pieces
host = record { name = codes "Ho"; names = codes "st" ∷ []; value = codes "a"; values = [] }

abbrev pub client : ClientRequest
client = record {
  method = codes "POST";
  path = codes "/a";
  params = (codes "k", codes "v") ∷ [];
  first = host;
  headers = [];
  body = codes "hi";
  upgrade = false;
}

-- The first run reports what comes in front of the body, and the second the body.
abbrev pub execute : ℕ → Bytes → ParserRun ℕ
execute zero bytes = record {
  parser = 1;
  callbacks =
      message_begin
      ∷ url (codes "/a" ++ (b'?' ∷ query ((codes "k", codes "v") ∷ [])))
      ∷ header_field (codes "Ho")
      ∷ header_field (codes "st")
      ∷ header_value (codes "a")
      ∷ headers_complete (codes "POST") false
      ∷ [];
  bytes_parsed = length bytes;
  is_error = false;
}
execute (suc n) bytes = record {
  parser = 0;
  callbacks = body (codes "hi") ∷ message_complete ∷ [];
  bytes_parsed = length bytes;
  is_error = false;
}

abbrev pub two_reads : List Queue
two_reads = (codes "POST /a", 8) ∷ (codes "hi", 8) ∷ []

pub two_reads-TakesAll : TakesAll queue execute two_reads 0
two_reads-TakesAll = ((λ h. absurd cc), refl, refl, ((λ h. absurd cc), refl, refl, tt))

pub all_callbacks-runs : all_callbacks queue execute two_reads 0 ≡ runs (message_of client ∷ [])
unfolding runs run calls
all_callbacks-runs = refl

pub handler-IsHolding : IsHolding nothing_held handler_codec
handler-IsHolding = record {
  held_name = refl;
  held_value = refl;
  held_request = refl;
  announces_begin = refl;
  announces = refl;
  no_headers_callback = refl;
}

http_reads-IsSession_example :
    IsSession queue execute
      (message_of client ∷ [])
      nothing_held
      (http_reads queue execute two_reads (0, handler_codec))
http_reads-IsSession_example =
    http_reads-IsSession queue execute two_reads (message_of client ∷ []) nothing_held 0
      handler_codec two_reads-TakesAll all_callbacks-runs handler-IsHolding

client_path : All (λ c. is_question c ≡ false) client.path
client_path = (refl, (refl, tt))

client_params : All IsParam client.params
client_params = (((refl, tt), (refl, tt)), tt)

http_reads-IsFound_example :
    (s : ℕ × HttpCodec) × (req : HttpRequest) × (http_reads queue execute two_reads
        (0, handler_codec)
      ≡ some (served s (request_complete req ∷ [])))
    × IsFound client (codes "k") [] req
http_reads-IsFound_example =
    http_reads-IsFound queue execute client two_reads 0 (codes "k") [] client_path client_params
      two_reads-TakesAll all_callbacks-runs

-- A second request behind the first, without headers and with its url in two pieces.
abbrev bare : Message
bare = record {
  urls = codes "/" ∷ codes "b" ∷ [];
  headers = [];
  method = codes "GET";
  upgrade = false;
  bodies = [];
}

on_callbacks-runs_example :
    ((on_callbacks (runs (message_of client ∷ bare ∷ [])) handler_codec).events
      ≡ announcements 0 (requests_of (message_of client ∷ bare ∷ []) nothing_held))
    × IsHolding
        (held_at_end (message_of client ∷ bare ∷ []) nothing_held)
        (on_callbacks (runs (message_of client ∷ bare ∷ [])) handler_codec).codec
on_callbacks-runs_example =
    on_callbacks-runs (message_of client ∷ bare ∷ []) nothing_held handler_codec handler-IsHolding

abbrev accept : Pieces
accept = record { name = codes "Accept"; names = []; value = codes "x"; values = codes "y" ∷ [] }

abbrev accept_whole : Pieces
accept_whole = record { name = codes "Accept"; names = []; value = codes "xy"; values = [] }

either_order :
    (i : Bytes)
    → first_value i (whole (host ∷ accept ∷ [])) ≡ first_value i (whole (accept_whole ∷ host ∷ []))
unfolding first_value join
either_order i = elim (Bool-cases (bytes_eq (codes "Host") i)) [
  | inl e ↦
      subst
        (λ (i : Bytes).
          first_value i (whole (host ∷ accept ∷ []))
          ≡ first_value i (whole (accept_whole ∷ host ∷ [])))
        (bytes_eq→eq (codes "Host") i e) (unfold bytes_eq in refl)
  | inr e ↦ elim (Bool-cases (bytes_eq (codes "Accept") i)) [
    | inl f ↦ rw (e, f) refl
    | inr f ↦ rw (e, f) refl
  ]
]

on_callbacks_reordered_example :
    (on_callbacks (runs (record bare { headers = host ∷ accept ∷ [] } ∷ [])) handler_codec).events
    ≡ (on_callbacks
        (runs (record bare { headers = accept_whole ∷ host ∷ [] } ∷ []))
        handler_codec).events
on_callbacks_reordered_example =
    on_callbacks_reordered bare host accept_whole (accept ∷ []) (host ∷ []) either_order
