-- ===== src/Http/Codec/Bodies.antt =====
-- What becomes of a request's body.
use woody.Shared.{
  ◌≡◌, refl, ◌∙◌, Bool, true, false, List, [], ◌∷◌, All, if◌then◌else◌, Bool-cases, inl, inr,
}
use woody.Base.StringMap.{Bytes}
use woody.Http.Request.{HttpRequest, add_header, set_method, set_upgrade, parse_url, clean_up}
use woody.Http.Request.Params.{parse_url_total}
use woody.Http.Codec.{
  ParserCallback, message_begin, url, header_field, header_value, headers_complete, body,
  message_complete, HeaderParseState, parse_header_begin, parse_header_name, parse_header_value,
  parse_header_nothing, parse_header_complete, HttpCodec, take_name, take_value, on_message_begin,
  on_url, on_header_field, on_header_value, parsed, on_headers_complete, on_message_complete,
  on_callback, on_callbacks,
}

abbrev pub is_body : ParserCallback → Bool
is_body (body s) = true
is_body k = false

pub parsed_body : (r : HttpRequest) → (parsed (parse_url r) r).body ≡ r.body
parsed_body r = let (m, e) = parse_url_total r in rw e refl

pub upgraded_body : (u : Bool) (q : HttpRequest) → (if u then set_upgrade q else q).body ≡ q.body
upgraded_body true q = refl
upgraded_body false q = refl

take_name_body :
    (p : HeaderParseState) (s : Bytes) (c : HttpCodec)
    → (take_name p s c).request.body ≡ c.request.body
unfolding add_header
take_name_body parse_header_nothing s c = refl
take_name_body parse_header_begin s c = refl
take_name_body parse_header_name s c = refl
take_name_body parse_header_value s c = refl
take_name_body parse_header_complete s c = refl

take_value_body :
    (p : HeaderParseState) (s : Bytes) (c : HttpCodec)
    → (take_value p s c).request.body ≡ c.request.body
take_value_body parse_header_nothing s c = refl
take_value_body parse_header_begin s c = refl
take_value_body parse_header_name s c = refl
take_value_body parse_header_value s c = refl
take_value_body parse_header_complete s c = refl

complete_body : (c : HttpCodec) → (on_message_complete c).codec.request.body ≡ c.request.body
unfolding on_message_complete clean_up
complete_body c = elim (Bool-cases c.has_message_complete) [ inl e ↦ rw e refl | inr e ↦ rw e refl ]

on_callback_body :
    (k : ParserCallback) (c : HttpCodec)
    → is_body k ≡ false
    → (on_callback k c).codec.request.body ≡ c.request.body
unfolding on_message_begin on_url on_header_field on_header_value on_headers_complete add_header
on_callback_body message_begin c h = refl
on_callback_body (url s) c h = refl
on_callback_body (header_field s) c h = take_name_body c.parse_state s c
on_callback_body (header_value s) c h = take_value_body c.parse_state s c
on_callback_body (headers_complete method upgrade) c h =
    let r : HttpRequest =
      set_method method (add_header c.cur_header_name c.cur_header_value c.request) in
    upgraded_body upgrade (parsed (parse_url r) r) ∙ parsed_body r
on_callback_body (body s) c h = absurd (cc)
on_callback_body message_complete c h = complete_body c

-- No callback of the request parser but `OnBody` changes the request's body, neither the end of a
-- request nor the beginning of the next.
pub on_callbacks_body :
    (ks : List ParserCallback) (c : HttpCodec)
    → All (λ k. is_body k ≡ false) ks
    → (on_callbacks ks c).codec.request.body ≡ c.request.body
unfolding on_callbacks
on_callbacks_body [] c h = refl
on_callbacks_body (k ∷ ks) c h =
    on_callbacks_body ks (on_callback k c).codec h.1 ∙ on_callback_body k c h.0
