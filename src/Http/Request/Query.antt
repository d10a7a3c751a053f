-- ===== src/Http/Request/Query.antt =====
-- woody/http/http_request.cc: `ParseUrl` on a query string.
use native.Mathlib.Nat.{le_refl}
use woody.Shared.{
  ℕ, zero, suc, ◌≤◌, ◌≡◌, refl, ap, ◌∙◌, false, Option, none, some, List, [], ◌∷◌, ◌++◌, length,
  length-append, All, arith, ne→==, if◌then◌else◌,
}
use woody.Shared.Text.{bytes_eq}
use woody.Base.StringMap.{Bytes, StringMap, find, assign}
use woody.Base.StringMap.Laws.{IsOrdered, assign-IsOrdered, find-assign}
use woody.Http.Request.{
  HttpRequest, is_equals, ends_value, is_question, parse_params, after_question, parse_from,
  parse_url, found, get_get_params,
}
use woody.Http.Request.Params.{span_whole, span_stop, parse_params-suc, query, assign_all, IsParam}

parse_params-query :
    (ps : List (Bytes × Bytes)) (fuel : ℕ) (m : StringMap)
    → All IsParam ps
    → length (query ps) ≤ fuel
    → parse_params fuel (query ps) m ≡ some (assign_all ps m)
unfolding query assign_all
parse_params-query [] fuel m h enough = unfold parse_params in refl
parse_params-query ((k, v) ∷ []) zero m h enough =
    absurd (omega (arith, length-append k (b'=' ∷ v)))
parse_params-query ((k, v) ∷ []) (suc fuel) m h enough =
    parse_params-suc fuel (k ++ (b'=' ∷ v)) m (record { passed = k; rest = b'=' ∷ v })
      (record { passed = v; rest = [] }) (span_stop is_equals k b'=' v h.0.0 refl)
      (span_whole ends_value v h.0.1)
    ∙ rw (ne→== (length {A = ℕ} (b'=' ∷ v)) 0 (omega arith)) (unfold parse_params in refl)
parse_params-query ((k, v) ∷ (p ∷ ps)) zero m h enough =
    absurd (omega (arith, length-append k (b'=' ∷ (v ++ (b'&' ∷ query (p ∷ ps))))))
parse_params-query ((k, v) ∷ (p ∷ ps)) (suc fuel) m h enough =
    let tail : Bytes = v ++ (b'&' ∷ query (p ∷ ps)) in
    parse_params-suc fuel (k ++ (b'=' ∷ tail)) m (record { passed = k; rest = b'=' ∷ tail })
      (record { passed = v; rest = b'&' ∷ query (p ∷ ps) })
      (span_stop is_equals k b'=' tail h.0.0 refl)
      (span_stop ends_value v b'&' (query (p ∷ ps)) h.0.1 refl)
    ∙ rw (ne→== (length {A = ℕ} (b'=' ∷ tail)) 0 (omega arith)) (
        parse_params-query (p ∷ ps) fuel (assign k v m) h.1
          (omega (arith, length-append k (b'=' ∷ tail), length-append v (b'&' ∷ query (p ∷ ps)))))

after_question_lem :
    (path s : Bytes)
    → All (λ c. is_question c ≡ false) path
    → after_question (path ++ (b'?' ∷ s)) ≡ some s
unfolding after_question
after_question_lem [] s h = refl
after_question_lem (c ∷ path) s h = rw h.0 (after_question_lem path s h.1)

-- For a url that is a path with no '?', a '?' and the query string of any number of parameters,
-- whose names have no '=' and whose values have no '&' and no blank, `ParseUrl` assigns exactly
-- those parameters, in their order, and changes nothing else.
pub parse_url-query :
    (path : Bytes) (ps : List (Bytes × Bytes)) (r : HttpRequest)
    → All (λ c. is_question c ≡ false) path
    → All IsParam ps
    → r.url ≡ path ++ (b'?' ∷ query ps)
    → parse_url r ≡ some (record r { method_get_params = assign_all ps r.method_get_params })
unfolding parse_url
parse_url-query path ps r h hs e =
    ap (λ (u : Bytes). parse_from (after_question u) r) e
    ∙ rw (after_question_lem path (query ps) h)
        (rw (parse_params-query ps (length (query ps)) r.method_get_params hs (le_refl _)) refl)

-- The last value that the list has for a name, or else what was there.
unfoldable pub last_value : Bytes → List (Bytes × Bytes) → Option Bytes → Option Bytes
last_value i [] d = d
last_value i ((k, v) ∷ ps) d = last_value i ps (if bytes_eq k i then some v else d)

pub find-assign_all :
    (i : Bytes) (ps : List (Bytes × Bytes)) (m : StringMap)
    → IsOrdered m
    → find i (assign_all ps m) ≡ last_value i ps (find i m)
unfolding assign_all last_value
find-assign_all i [] m o = refl
find-assign_all i ((k, v) ∷ ps) m o =
    find-assign_all i ps (assign k v m) (assign-IsOrdered k v m o)
    ∙ ap (λ (d : Option Bytes). last_value i ps d) (find-assign i k v m o)

-- On a url that is a path with no '?', a '?' and the query string of parameters whose names have
-- no '=' and whose values have no '&' and no blank, and with no parameters before, `GetGETParams`
-- finds after `ParseUrl` the last value that the query string has for the name, and leaves the
-- caller's string alone if it has none.
pub get_get_params-parse_url :
    (path : Bytes) (ps : List (Bytes × Bytes)) (r : HttpRequest) (name value : Bytes)
    → All (λ c. is_question c ≡ false) path
    → All IsParam ps
    → r.url ≡ path ++ (b'?' ∷ query ps)
    → r.method_get_params ≡ []
    → (r' : HttpRequest) × (parse_url r ≡ some r')
      × (get_get_params name value r' ≡ found (last_value name ps none) value)
unfolding get_get_params
get_get_params-parse_url path ps r name value h hs e empty = (
  record r { method_get_params = assign_all ps r.method_get_params },
  parse_url-query path ps r h hs e,
  ap (λ (o : Option Bytes). found o value)
      (find-assign_all name ps r.method_get_params (rw empty tt)
        ∙ ap (λ (m : StringMap). last_value name ps (find name m)) empty
        ∙ unfold find in refl),
)
