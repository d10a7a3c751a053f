-- ===== src/Sample.antt =====
-- example/http/server.cc: a server with one application, registered for every url that begins with
-- a slash.
use woody.Shared.{
  ℕ, suc, ◌≡◌, refl, sym, ap, ap₂, ◌∙◌, Bool, true, false, Option, none, some, List, [], ◌∷◌, ◌++◌,
  All, map, if◌then◌else◌,
}
use mathlib.Core.Path.{subst}
use woody.Shared.Text.{codes}
use woody.Base.StringMap.{Bytes, insert}
use woody.Net.Buffer.{Buffer}
use woody.Net.Loop.Reads.{served}
use woody.Bytree.StringUtil.{is_string_begin_with}
use woody.Http.Request.{HttpRequest}
use woody.Http.Response.{
  HttpResponse, set_status, add_header, add_body, header_lines, to_string, format, end,
}
use woody.Http.Response.ReadBack.{Message, read_message}
use woody.Http.Codec.{HttpCodec, ParserRun}
use woody.Http.Codec.Sequence
use woody.Http.Codec.Sequence.{runs, Held, requests_of, IsHolding}
use woody.Http.Handler.{request_complete}
use woody.Http.Handler.Session.{http_reads-IsSession}
use woody.Http.Server.Interleaving.{Brings}
use woody.Http.Server.Routing.{first_of, on_request-first_of}
use woody.Http.Server.{HttpServer, handle, find_app, on_request}
use woody.Connection.{
  Program, done, call_end, HttpApplication, new_response, Setting, ConnectionAction, sends,
  Connection,
}
use woody.Http.Response.Text.{end-sent_text}
use woody.Connection.Answers.{IsPlain, calls_of, program_of, IsAnswered, answers}
use woody.Connection.Reads.{connection, connection_reads, connection_reads-http}

-- `App::HandleRequest`
unfoldable pub handle_request : HttpApplication
handle_request req resp =
    call_end
      (add_body (codes "I am body") (
        add_header (codes "header_name") (codes "header_value") (set_status 200 (codes "OK") resp)))
      done

-- `main`, up to `Start`.
unfoldable pub main : HttpServer HttpApplication
main = handle (codes "/") handle_request (record { apps = []; handler_map = [] })

-- The answer, before it is a string.
abbrev pub filled : (ℕ → Bytes) → HttpResponse
filled int_to_string = record {
  status_code = 200;
  status_message = codes "OK";
  headers_map =
      (codes "Content-Length", int_to_string 9) ∷ (codes "header_name", codes "header_value") ∷ [];
  body = codes "I am body";
}

abbrev pub BeginsWithSlash : HttpRequest → Type 0
BeginsWithSlash req = is_string_begin_with req.url (codes "/") ≡ true

-- The server of `main`, with any library.
abbrev pub sample : Setting → Setting
sample x = record x { server = main }

abbrev pub text_of : Setting → Bytes
text_of x = to_string x.int_to_string (filled x.int_to_string)

module _ (x : Setting) where
  program_lem :
      (req : HttpRequest)
      → BeginsWithSlash req
      → program_of (sample x) (first_of main.apps req.url) req
        ≡ handle_request req (new_response x.status_code)
  unfolding main handle on_request find_app
  program_lem req h =
      ap (λ (o : Option HttpApplication). program_of (sample x) o req)
        (sym (on_request-first_of main req))
      ∙ rw h refl

  -- The response as the application makes it.
  abbrev response : HttpResponse
  response = add_body (codes "I am body") (
      add_header (codes "header_name") (codes "header_value")
        (set_status 200 (codes "OK") (new_response x.status_code)))

  calls_lem :
      (req : HttpRequest)
      → calls_of (sample x) (handle_request req (new_response x.status_code))
        ≡ sends (text_of x) ∷ []
  unfolding handle_request calls_of new_response end format add_body add_header set_status insert
      woody.Http.Response.Text.lines_of woody.Shared.Text.bytes_eq woody.Shared.Text.bytes_lt
  calls_lem req = ap (λ (t : Bytes). sends t ∷ []) (sym (end-sent_text x.int_to_string response))

  plain_lem : (req : HttpRequest) → IsPlain (handle_request req (new_response x.status_code))
  unfolding handle_request
  plain_lem req = tt

  all-IsAnswered :
      (rs : List HttpRequest)
      → All BeginsWithSlash rs
      → All (IsAnswered (sample x)) (map request_complete rs)
  all-IsAnswered [] h = tt
  all-IsAnswered (r ∷ rs) h =
      (subst IsPlain (sym (program_lem r h.0)) (plain_lem r), all-IsAnswered rs h.1)

  all_answers :
      (rs : List HttpRequest)
      → All BeginsWithSlash rs
      → answers (sample x) (map request_complete rs)
        ≡ map (λ (r : HttpRequest). sends (text_of x)) rs
  unfolding answers
  all_answers [] h = refl
  all_answers (r ∷ rs) h =
      ap₂ (λ (es fs : List ConnectionAction). es ++ fs)
        (ap (λ (k : Program). calls_of (sample x) k) (program_lem r h.0) ∙ calls_lem r)
        (all_answers rs h.1)

  reads_back :
      x.int_to_string 200 ≡ codes "200"
      → x.int_to_string 9 ≡ codes "9"
      → read_message 3 (text_of x) ≡ record {
        first = codes "HTTP/1.1 200 OK";
        headers =
            (codes "Content-Length", codes "9") ∷ (codes "header_name", codes "header_value") ∷ [];
        body = codes "I am body";
      }
  unfolding read_message woody.Http.Request.span woody.Http.Response.ReadBack.read_headers to_string
      header_lines
  reads_back two_hundred nine = rw (two_hundred, nine) refl

  module _ {P : Type 0} (m : Buffer) (execute : P → Bytes → ParserRun P) where
    -- The example's server, where the cast gives "200" and "9" for these numbers: if a connection's
    -- reads, each of which the request parser takes whole and without an error, bring requests in
    -- any pieces whose urls as the codec has them begin with a slash, then each of them is answered
    -- with one and the same text, once and in order, and nothing else is done. A client that reads
    -- the text finds the first line "HTTP/1.1 200 OK", the headers "Content-Length: 9" and
    -- "header_name: header_value", and the body "I am body".
    pub sample_answers :
        (bs : List m.Buf) (qs : List Sequence.Message) (held : Held) (s : P × HttpCodec)
        → x.int_to_string 200 ≡ codes "200"
        → x.int_to_string 9 ≡ codes "9"
        → Brings m execute bs qs held s
        → All BeginsWithSlash (requests_of qs held)
        → (text : Bytes) × (d : Connection P) × (connection_reads
              (sample x)
              m
              execute
              bs
              (connection s none)
            ≡ some (served d (map (λ (r : HttpRequest). sends text) (requests_of qs held))))
          × (read_message 3 text ≡ record {
            first = codes "HTTP/1.1 200 OK";
            headers =
                (codes "Content-Length", codes "9")
                ∷ (codes "header_name", codes "header_value")
                ∷ [];
            body = codes "I am body";
          })
    sample_answers bs qs held s two_hundred nine brings slashes =
        let session =
          http_reads-IsSession m execute bs qs held s.0 s.1 brings.takes brings.calls
            brings.holding in
        let d : P × HttpCodec = (session.parser, session.codec) in
        (
          text_of x,
          connection d none,
          connection_reads-http (sample x) m execute bs s d
                (map request_complete (requests_of qs held)) session.hands_over
                (all-IsAnswered (requests_of qs held) slashes)
              ∙ ap (λ (es : List ConnectionAction). some (served (connection d none) es))
                  (all_answers (requests_of qs held) slashes),
          reads_back two_hundred nine,
        )
