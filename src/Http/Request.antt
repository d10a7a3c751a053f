-- ===== src/Http/Request.antt =====
-- woody/http/http_request.h and http_request.cc. The loop of `ParseUrl` walks `url_` by an index;
-- here it walks the part of the url that begins there.
pub mod Params
pub mod Query
use woody.Shared.{
  ℕ, zero, suc, Bool, true, false, ◌&&◌, ◌||◌, not, Option, none, some, List, [], ◌∷◌, ◌==◌, length,
  if◌then◌else◌,
}
use woody.Base.StringMap.{Bytes, StringMap, find, insert, assign}

pub record HttpRequest : Type 0 where
  pub is_header_finished : Bool
  pub is_body_finished : Bool
  pub is_upgrade : Bool
  pub method : Bytes
  pub url : Bytes
  pub version : Bytes
  pub headers_map : StringMap
  pub method_get_params : StringMap
  pub body : Bytes

abbrev pub new_request : HttpRequest
new_request = record {
  is_header_finished = false;
  is_body_finished = false;
  is_upgrade = false;
  method = [];
  url = [];
  version = [];
  headers_map = [];
  method_get_params = [];
  body = [];
}

unfoldable pub add_header : Bytes → Bytes → HttpRequest → HttpRequest
add_header name value r = record r { headers_map = insert name value r.headers_map }

-- What is returned, and the string behind the reference parameter, which holds `value` before.
pub record Found : Type 0 where
  pub success : Bool
  pub value : Bytes

abbrev pub found : Option Bytes → Bytes → Found
found none value = record { success = false; value = value }
found (some v) value = record { success = true; value = v }

unfoldable pub get_header : Bytes → Bytes → HttpRequest → Found
get_header name value r = found (find name r.headers_map) value

unfoldable pub get_get_params : Bytes → Bytes → HttpRequest → Found
get_get_params name value r = found (find name r.method_get_params) value

abbrev pub set_url : Bytes → HttpRequest → HttpRequest
set_url url r = record r { url = url }

abbrev pub set_method : Bytes → HttpRequest → HttpRequest
set_method method r = record r { method = method }

abbrev pub set_body : Bytes → HttpRequest → HttpRequest
set_body body r = record r { body = body }

abbrev pub set_upgrade : HttpRequest → HttpRequest
set_upgrade r = record r { is_upgrade = true }

-- `while (i < url_.size() && !stop(url_[i])) i++;`: what it passes over, and where it stands then.
pub record Span : Type 0 where
  pub passed : Bytes
  pub rest : Bytes

unfoldable pub span : (ℕ → Bool) → Bytes → Span
span stop [] = record { passed = []; rest = [] }
span stop (c ∷ s) =
    let more = span stop s in
    if stop c
    then record { passed = []; rest = c ∷ s }
    else record { passed = c ∷ more.passed; rest = more.rest }

abbrev pub is_equals : ℕ → Bool
is_equals c = c == b'='

-- The characters that end a value.
abbrev pub ends_value : ℕ → Bool
ends_value c = c == b'&' || c == b' '

abbrev pub is_question : ℕ → Bool
is_question c = c == b'?'

abbrev pub skip_one : Bytes → Bytes
skip_one [] = []
skip_one (c ∷ s) = s

-- The `for` loop, from the part of the url that begins at `i`. `none`: the fuel ran out.
unfoldable pub parse_params : ℕ → Bytes → StringMap → Option StringMap
parse_params fuel [] m = some m
parse_params zero (c ∷ s) m = none
parse_params (suc fuel) (c ∷ s) m =
    let key = span is_equals (c ∷ s) in
    let value = span ends_value (skip_one key.rest) in
    let next = parse_params fuel (skip_one value.rest) (assign key.passed value.passed m) in
    if length key.rest == 0 then some m else next

-- `url_.find('?')`: the part behind it, or nothing.
unfoldable pub after_question : Bytes → Option Bytes
after_question [] = none
after_question (c ∷ s) = if is_question c then some s else after_question s

abbrev pub with_params : Option StringMap → HttpRequest → Option HttpRequest
with_params none r = none
with_params (some m) r = some (record r { method_get_params = m })

abbrev pub parse_from : Option Bytes → HttpRequest → Option HttpRequest
parse_from none r = some r
parse_from (some s) r = with_params (parse_params (length s) s r.method_get_params) r

-- The `empty()` test in front is the case of no '?'.
unfoldable pub parse_url : HttpRequest → Option HttpRequest
parse_url r = parse_from (after_question r.url) r

-- `body_` is not cleared.
unfoldable pub clean_up : HttpRequest → HttpRequest
clean_up r = record r {
  is_header_finished = false;
  is_body_finished = false;
  is_upgrade = false;
  method = [];
  url = [];
  version = [];
  headers_map = [];
  method_get_params = [];
}
