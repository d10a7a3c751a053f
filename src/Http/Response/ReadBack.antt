-- ===== src/Http/Response/ReadBack.antt =====
-- woody/http/http_response.cc: the text of a response, for a client that reads it.
use woody.Shared.{
  ℕ, zero, suc, ◌≤◌, ◌≡◌, refl, sym, ap, ◌∙◌, Bool, false, List, [], ◌∷◌, ◌++◌, append_assoc,
  All-append, ◌≢◌, ne→==, length-append, length, All, ◌==◌, arith, if◌then◌else◌,
}
use woody.Base.StringMap.{Bytes, StringMap}
use woody.Http.Request.{span, skip_one}
use woody.Http.Request.Params.{span_stop}
use woody.Http.Response.{HttpResponse, header_lines, first_line, to_string}

abbrev pub is_cr : ℕ → Bool
is_cr c = c == 13

abbrev pub is_colon : ℕ → Bool
is_colon c = c == 58

abbrev pub skip_two : Bytes → Bytes
skip_two s = skip_one (skip_one s)

-- A client's view of a message: the first line, the headers in their order, and the body.
pub record Message : Type 0 where
  pub first : Bytes
  pub headers : List (Bytes × Bytes)
  pub body : Bytes

-- A line up to its CR, cut at its first colon; an empty line ends the headers.
unfoldable pub read_headers : ℕ → Bytes → List (Bytes × Bytes) × Bytes
read_headers zero s = ([], s)
read_headers (suc fuel) s =
    let line = span is_cr s in
    let name = span is_colon line.passed in
    let rest = read_headers fuel (skip_two line.rest) in
    if length line.passed == 0
    then ([], skip_two line.rest)
    else ((name.passed, skip_two name.rest) ∷ rest.0, rest.1)

unfoldable pub read_message : ℕ → Bytes → Message
read_message fuel s =
    let line = span is_cr s in
    let headers = read_headers fuel (skip_two line.rest) in
    record { first = line.passed; headers = headers.0; body = headers.1 }

-- No CR in a header, and no colon in its name.
abbrev pub IsHeader : Bytes × Bytes → Type 0
IsHeader h =
    (All (λ c. is_cr c ≡ false) h.0 × All (λ c. is_colon c ≡ false) h.0)
    × All (λ c. is_cr c ≡ false) h.1

header_line :
    (k v tail : Bytes)
    → IsHeader (k, v)
    → span is_cr (k ++ (58 ∷ 32 ∷ (v ++ (13 ∷ tail))))
      ≡ record { passed = k ++ (58 ∷ 32 ∷ v); rest = 13 ∷ tail }
header_line k v tail h =
    ap (λ (s : Bytes). span is_cr s) (sym (append_assoc k (58 ∷ 32 ∷ v) (13 ∷ tail)))
    ∙ span_stop is_cr (k ++ (58 ∷ 32 ∷ v)) 13 tail
        (All-append (λ c. is_cr c ≡ false) k (58 ∷ 32 ∷ v) h.0.0 (refl, (refl, h.1))) refl

read_headers-suc :
    (fuel : ℕ) (s passed rest name value : Bytes)
    → span is_cr s ≡ record { passed = passed; rest = rest }
    → span is_colon passed ≡ record { passed = name; rest = value }
    → length passed ≢ 0
    → read_headers (suc fuel) s ≡ (
      (name, skip_two value) ∷ (read_headers fuel (skip_two rest)).0,
      (read_headers fuel (skip_two rest)).1,
    )
unfolding read_headers
read_headers-suc fuel s passed rest name value e d n =
    rw e (rw d (rw (ne→== (length passed) 0 n) refl))

lines_append :
    (k v s tail : Bytes)
    → (k ++ (58 ∷ 32 ∷ (v ++ (13 ∷ 10 ∷ s)))) ++ tail
      ≡ k ++ (58 ∷ 32 ∷ (v ++ (13 ∷ 10 ∷ (s ++ tail))))
lines_append k v s tail =
    append_assoc k (58 ∷ 32 ∷ (v ++ (13 ∷ 10 ∷ s))) tail
    ∙ ap (λ (t : Bytes). k ++ (58 ∷ 32 ∷ t)) (append_assoc v (13 ∷ 10 ∷ s) tail)

read_headers-lines :
    (hs : StringMap) (fuel : ℕ) (body : Bytes)
    → All IsHeader hs
    → suc (length hs) ≤ fuel
    → read_headers fuel (header_lines hs ++ (13 ∷ 10 ∷ body)) ≡ (hs, body)
unfolding header_lines
read_headers-lines hs zero body h enough = absurd (omega arith)
read_headers-lines [] (suc fuel) body h enough = unfold read_headers span in refl
read_headers-lines ((k, v) ∷ hs) (suc fuel) body h enough =
    let tail : Bytes = 13 ∷ 10 ∷ body in
    ap (λ (s : Bytes). read_headers (suc fuel) s) (lines_append k v (header_lines hs) tail)
    ∙ read_headers-suc fuel (k ++ (58 ∷ 32 ∷ (v ++ (13 ∷ 10 ∷ (header_lines hs ++ tail)))))
        (k ++ (58 ∷ 32 ∷ v)) (13 ∷ 10 ∷ (header_lines hs ++ tail)) k (58 ∷ 32 ∷ v)
        (header_line k v (10 ∷ (header_lines hs ++ tail)) h.0)
        (span_stop is_colon k 58 (32 ∷ v) h.0.0.1 refl)
        (λ e. absurd (omega (arith, e, length-append k (58 ∷ 32 ∷ v))))
    ∙ rw (read_headers-lines hs fuel body h.1 (omega arith)) refl

-- A client that has fuel for one more line than there are headers reads from the text of a response
-- its first line, its headers in the order of `GetAllHeaders` and its body, whatever bytes the body
-- has, if the first line and the headers have no CR and the headers' names no colon.
pub read_message-to_string :
    (int_to_string : ℕ → Bytes) (r : HttpResponse) (fuel : ℕ)
    → All (λ c. is_cr c ≡ false) (first_line int_to_string r)
    → All IsHeader r.headers_map
    → suc (length r.headers_map) ≤ fuel
    → read_message fuel (to_string int_to_string r)
      ≡ record { first = first_line int_to_string r; headers = r.headers_map; body = r.body }
unfolding read_message to_string
read_message-to_string int_to_string r fuel h hs enough =
    let tail : Bytes = header_lines r.headers_map ++ (13 ∷ 10 ∷ r.body) in
    rw (span_stop is_cr (first_line int_to_string r) 13 (10 ∷ tail) h refl)
      (rw (read_headers-lines r.headers_map fuel r.body hs enough) refl)
