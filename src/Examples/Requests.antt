-- ===== src/Examples/Requests.antt =====
-- Requests and responses of the http part.
use woody.Shared.{ℕ, ◌≡◌, refl, none, some, List, [], ◌∷◌, ◌++◌, arith}
use woody.Shared.Text.{codes}
use woody.Base.StringMap.{Bytes, StringMap}
use woody.Http.Request.{HttpRequest, new_request, parse_url, get_get_params, found}
use woody.Http.Request.Params.{query}
use woody.Http.Request.Query.{get_get_params-parse_url, last_value}
use woody.Http.Response.{HttpResponse, first_line, to_string}
use woody.Http.Response.ReadBack.{read_message, read_message-to_string}

abbrev path : Bytes
path = codes "/search"

abbrev params : List (Bytes × Bytes)
params = (codes "q", codes "cat") ∷ (codes "p", codes "2") ∷ (codes "q", codes "dog") ∷ []

abbrev request : HttpRequest
request = record new_request { url = codes "/search?q=cat&p=2&q=dog" }

request_url : request.url ≡ path ++ (b'?' ∷ query params)
unfolding query
request_url = refl

get_get_params-parse_url_example :
    (r' : HttpRequest) × (parse_url request ≡ some r')
    × (get_get_params (codes "q") [] r' ≡ found (last_value (codes "q") params none) [])
get_get_params-parse_url_example =
    get_get_params-parse_url path params request (codes "q") []
      (refl, (refl, (refl, (refl, (refl, (refl, (refl, tt)))))))
      (
        ((refl, tt), (refl, (refl, (refl, tt)))),
        (((refl, tt), (refl, tt)), (((refl, tt), (refl, (refl, (refl, tt)))), tt)),
      )
      request_url refl

-- A printer that has one digit.
abbrev unary : ℕ → Bytes
unary n = b'1' ∷ []

abbrev response : HttpResponse
response = record {
  status_code = 200;
  status_message = codes "OK";
  headers_map = (codes "A", codes "b") ∷ (codes "C", codes "d") ∷ [];
  body = codes "x";
}

read_message-to_string_example : read_message 3 (to_string unary response) ≡ record {
  first = first_line unary response;
  headers = response.headers_map;
  body = response.body;
}
read_message-to_string_example =
    read_message-to_string unary response 3
      (
        refl,
        (
          refl,
          (
            refl,
            (refl, (refl, (refl, (refl, (refl, (refl, (refl, (refl, (refl, (refl, tt)))))))))),
          ),
        ),
      )
      ((((refl, tt), (refl, tt)), (refl, tt)), ((((refl, tt), (refl, tt)), (refl, tt)), tt))
      (omega arith)
