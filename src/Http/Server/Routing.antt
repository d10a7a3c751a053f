-- ===== src/Http/Server/Routing.antt =====
-- woody/http/http_server.cc: which application gets a request.
use woody.Shared.{
  sym, ◌∙◌, take, drop, length, take_append, take-append-drop, ◌≡◌, ◌≢◌, refl, ap, ◌⊎◌, inl, inr,
  false, Option, none, some, List, [], ◌∷◌, ◌++◌, All, Bool-cases, if◌then◌else◌,
}
use woody.Shared.Text.{bytes_eq, bytes_eq→eq, bytes_eq_refl}
use woody.Base.StringMap.{Bytes}
use woody.Bytree.StringUtil.{is_string_begin_with}
use woody.Bytree.StringUtil.Occurrences.{is_string_begin_with_iff}
use woody.Http.Request.{HttpRequest}
use woody.Http.Server.{HttpServer, handle, find_app, on_request}

is_string_begin_with-take :
    (s p : Bytes) → is_string_begin_with s p ≡ bytes_eq (take (length p) s) p
is_string_begin_with-take s p = elim (Bool-cases (is_string_begin_with s p)) [
  | inl e ↦
      let (t, q) = (is_string_begin_with_iff s p).0 e in
      e
      ∙ sym (bytes_eq_refl p)
      ∙ ap (λ (u : Bytes). bytes_eq u p)
          (sym (take_append p t (length p) refl) ∙ ap (λ (u : Bytes). take (length p) u) (sym q))
  | inr e ↦ elim (Bool-cases (bytes_eq (take (length p) s) p)) [
    | inl f ↦ absurd cc (
      e,
      (is_string_begin_with_iff s p).1 (
        drop (length p) s,
        sym (take-append-drop (length p) s)
            ∙ ap (λ (u : Bytes). u ++ drop (length p) s) (bytes_eq→eq (take (length p) s) p f),
      ),
    )
    | inr f ↦ e ∙ sym f
  ]
]

module _ {A : Type 0} where
  -- The url does not begin with the application's prefix.
  abbrev pub Misses : Bytes → Bytes × A → Type 0
  Misses url a = (s : Bytes) → url ≢ a.0 ++ s

  misses : (url : Bytes) (a : Bytes × A) → is_string_begin_with url a.0 ≡ false → Misses url a
  misses url a e s q = absurd cc (e, (is_string_begin_with_iff url a.0).1 (s, q))

  -- What a list of applications gives for a url: nothing, and then no prefix is one of the url, or
  -- the first application whose prefix is one.
  abbrev pub IsFirst : List (Bytes × A) → Bytes → Option A → Type 0
  IsFirst apps url found =
      ((found ≡ none) × All (Misses url) apps)
      ⊎ ((before : List (Bytes × A)) × (p : Bytes) × (app : A) × (behind : List (Bytes × A))
          × (s : Bytes) × (apps ≡ before ++ ((p, app) ∷ behind))
          × All (Misses url) before
          × (url ≡ p ++ s)
          × (found ≡ some app))

  find_app-IsFirst : (apps : List (Bytes × A)) (url : Bytes) → IsFirst apps url (find_app apps url)
  unfolding find_app
  find_app-IsFirst [] url = inl (refl, tt)
  find_app-IsFirst ((p, app) ∷ apps) url = elim (Bool-cases (is_string_begin_with url p)) [
    | inl e ↦
        let (s, q) = (is_string_begin_with_iff url p).0 e in
        inr ([], p, app, apps, s, refl, tt, q, rw e refl)
    | inr e ↦ elim (find_app-IsFirst apps url) [
      | inl (n, h) ↦ inl (rw e n, (misses url (p, app) e, h))
      | inr (before, q, b, behind, s, split, h, hit, r) ↦ inr (
        (p, app) ∷ before,
        q,
        b,
        behind,
        s,
        ap (λ (as' : List (Bytes × A)). (p, app) ∷ as') split,
        (misses url (p, app) e, h),
        hit,
        rw e r,
      )
    ]
  ]

  -- A request goes to no application if its url begins with no registered prefix (no prefix with a
  -- string behind it is the url), and else to the first registered application whose prefix it
  -- begins with, and to no other.
  pub on_request-cases :
      (s : HttpServer A) (req : HttpRequest) → IsFirst s.apps req.url (on_request s req)
  unfolding on_request
  on_request-cases s req = find_app-IsFirst s.apps req.url

  -- The first application whose prefix is what the url has in its place, as a function.
  unfoldable pub first_of : List (Bytes × A) → Bytes → Option A
  first_of [] url = none
  first_of ((p, app) ∷ apps) url =
      let rest = first_of apps url in if bytes_eq (take (length p) url) p then some app else rest

  find_app-first_of :
      (apps : List (Bytes × A)) (url : Bytes) → find_app apps url ≡ first_of apps url
  unfolding find_app first_of
  find_app-first_of [] url = refl
  find_app-first_of ((p, app) ∷ apps) url =
      rw (is_string_begin_with-take url p) (rw (find_app-first_of apps url) refl)

  pub on_request-first_of :
      (s : HttpServer A) (req : HttpRequest) → on_request s req ≡ first_of s.apps req.url
  unfolding on_request
  on_request-first_of s req = find_app-first_of s.apps req.url

  abbrev pub or_else : Option A → Option A → Option A
  or_else none b = b
  or_else (some a) b = some a

  find_app_last :
      (apps : List (Bytes × A)) (p : Bytes) (app : A) (url : Bytes)
      → find_app (apps ++ ((p, app) ∷ [])) url
        ≡ or_else (find_app apps url) (if is_string_begin_with url p then some app else none)
  unfolding find_app
  find_app_last [] p app url = refl
  find_app_last ((q, b) ∷ apps) p app url = elim (Bool-cases (is_string_begin_with url q)) [
    | inl e ↦ rw e refl
    | inr e ↦ rw e (find_app_last apps p app url)
  ]

  -- Where `Handle` has registered an application behind the others, a request goes where it went
  -- before, and a request that went nowhere goes to the new application if the url begins with its
  -- prefix.
  pub on_request-handle :
      (p : Bytes) (app : A) (s : HttpServer A) (req : HttpRequest)
      → on_request (handle p app s) req
        ≡ or_else (on_request s req) (if is_string_begin_with req.url p then some app else none)
  unfolding on_request handle
  on_request-handle p app s req = find_app_last s.apps p app req.url
