-- ===== src/Examples/Serving.antt =====
-- A server with two applications.
use woody.Shared.{ℕ, ◌≡◌, refl, true, false, none, some, [], ◌∷◌, if◌then◌else◌, arith}
use woody.Shared.Text.{codes}
use woody.Base.StringMap.{find}
use woody.Bytree.StringUtil.{is_string_begin_with, is_string_end_with}
use woody.Bytree.StringUtil.Occurrences.{is_string_end_with_longer}
use woody.Http.Request.{HttpRequest, new_request}
use woody.Http.Server.{HttpServer, on_request}
use woody.Http.Server.Routing.{IsFirst, on_request-cases}
use woody.Http.Server.Connections.{connections, has_opened, find-connections_new}

abbrev server : HttpServer ℕ
server = record { apps = (codes "/a", 1) ∷ (codes "/", 2) ∷ []; handler_map = [] }

abbrev request : HttpRequest
request = record new_request { url = codes "/b" }

on_request-cases_example : IsFirst server.apps request.url (on_request server request)
on_request-cases_example = on_request-cases server request

find-connections_new_example :
    find
      (codes "c1")
      (connections
        ((true, codes "c1") ∷ (true, codes "c2") ∷ (false, codes "c1") ∷ [])
        server).handler_map
    ≡ (if has_opened
          (codes "c1")
          ((true, codes "c1") ∷ (true, codes "c2") ∷ (false, codes "c1") ∷ [])
        then some (codes "c1")
        else none)
find-connections_new_example =
    find-connections_new ((true, codes "c1") ∷ (true, codes "c2") ∷ (false, codes "c1") ∷ [])
      (codes "c1") server refl

ends : is_string_end_with (codes "ab") (codes "b") ≡ true
unfolding is_string_end_with woody.Bytree.StringUtil.find_from woody.Bytree.StringUtil.is_prefix
ends = refl

is_string_end_with_longer_example : is_string_end_with (codes "a") (codes "bc") ≡ true
is_string_end_with_longer_example =
    is_string_end_with_longer (codes "a") (codes "bc") (omega arith) refl
