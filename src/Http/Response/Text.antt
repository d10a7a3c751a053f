-- ===== src/Http/Response/Text.antt =====
-- The text that a response is sent as, written out part by part: the specification of `End`
-- (woody/http/http_response.cc).
use woody.Shared.{ℕ, ◌%◌, ◌^◌, ◌≡◌, refl, ap, ◌∙◌, [], ◌∷◌, ◌++◌, append_assoc, length}
use woody.Shared.Text.{codes}
use woody.Base.StringMap.{Bytes, StringMap, insert}
use woody.Http.Response.{HttpResponse, header_lines, to_string, format, add_header, end}

-- A header's line.
abbrev pub line_of : Bytes × Bytes → Bytes
line_of h = (h.0 ++ (58 ∷ 32 ∷ h.1)) ++ (13 ∷ 10 ∷ [])

unfoldable pub lines_of : StringMap → Bytes
lines_of [] = []
lines_of (h ∷ hs) = line_of h ++ lines_of hs

-- A text: the version of http, the status, a line for each header, an empty line, and the body.
abbrev pub written : Bytes → Bytes → StringMap → Bytes → Bytes
written code message headers body =
    codes "HTTP/1.1 "
    ++ (code ++ (32 ∷ (message ++ (13 ∷ 10 ∷ (lines_of headers ++ (13 ∷ 10 ∷ body))))))

-- The text of a response that is sent: with the size of its body, as an `int`, for a header, unless
-- it has one.
abbrev pub sent_text : (ℕ → Bytes) → HttpResponse → Bytes
sent_text int_to_string r =
    written (int_to_string r.status_code) r.status_message
      (insert (codes "Content-Length") (int_to_string (length r.body % 2 ^ 32)) r.headers_map)
      r.body

header_lines-lines_of : (hs : StringMap) → header_lines hs ≡ lines_of hs
unfolding header_lines lines_of
header_lines-lines_of [] = refl
header_lines-lines_of (h ∷ hs) =
    ap (λ (s : Bytes). h.0 ++ (58 ∷ 32 ∷ (h.1 ++ (13 ∷ 10 ∷ s)))) (header_lines-lines_of hs)
    ∙ simp append_assoc

pub end-sent_text :
    (int_to_string : ℕ → Bytes) (r : HttpResponse) → end int_to_string r ≡ sent_text int_to_string r
unfolding end to_string format add_header
end-sent_text int_to_string r = rw header_lines-lines_of (simp append_assoc)
