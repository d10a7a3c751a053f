-- ===== src/Http/Request/Params.antt =====
-- The parameters that `ParseUrl` reads.
use native.Mathlib.Nat.{le_refl}
use woody.Shared.{
  ℕ, zero, suc, ◌≤◌, ◌<◌, ◌≡◌, ◌≢◌, refl, ap, Bool, true, false, Option, none, some, List, [], ◌∷◌,
  ◌++◌, length, All, ◌==◌, arith, if◌then◌else◌, Bool-cases, inl, inr,
}
use woody.Base.StringMap.{Bytes, StringMap, assign}
use woody.Http.Request.{
  HttpRequest, Span, span, is_equals, ends_value, skip_one, parse_params, after_question,
  parse_from, parse_url,
}

-- A loop over characters that stops nowhere passes over all of them, and one that meets a stop
-- ends there.
pub span_whole :
    (stop : ℕ → Bool) (s : Bytes)
    → All (λ c. stop c ≡ false) s
    → span stop s ≡ record { passed = s; rest = [] }
unfolding span
span_whole stop [] h = refl
span_whole stop (c ∷ s) h = rw (h.0, span_whole stop s h.1) refl

pub span_stop :
    (stop : ℕ → Bool) (s : Bytes) (c : ℕ) (rest : Bytes)
    → All (λ c. stop c ≡ false) s
    → stop c ≡ true
    → span stop (s ++ (c ∷ rest)) ≡ record { passed = s; rest = c ∷ rest }
unfolding span
span_stop stop [] c rest h e = rw e refl
span_stop stop (x ∷ s) c rest h e = rw (h.0, span_stop stop s c rest h.1 e) refl

length-span : (stop : ℕ → Bool) (s : Bytes) → length (span stop s).rest ≤ length s
unfolding span
length-span stop [] = omega arith
length-span stop (c ∷ s) = elim (Bool-cases (stop c)) [
  | inl e ↦ rw e (le_refl _)
  | inr e ↦ rw e (omega (arith, length-span stop s))
]

length-skip_one : (s : Bytes) → length (skip_one s) ≤ length s
length-skip_one [] = omega arith
length-skip_one (c ∷ s) = omega arith

skip_one-lt : (s : Bytes) → length s ≢ 0 → length (skip_one s) < length s
skip_one-lt [] h = absurd (h refl)
skip_one-lt (c ∷ s) h = omega arith

-- The loop ends: each round passes at least the '=' of a parameter.
parse_params-ne-none :
    (fuel : ℕ) (s : Bytes) (m : StringMap) → length s ≤ fuel → parse_params fuel s m ≢ none
unfolding parse_params
parse_params-ne-none fuel [] m h = λ e. cc
parse_params-ne-none zero (c ∷ s) m h = absurd (omega arith)
parse_params-ne-none (suc fuel) (c ∷ s) m h =
    elim (Bool-cases (length (span is_equals (c ∷ s)).rest == 0)) [
      | inl e ↦ rw e (λ p. cc)
      | inr e ↦ rw e (parse_params-ne-none fuel _ _ (fewer e))
    ]
  where
    fewer :
        (length (span is_equals (c ∷ s)).rest == 0) ≡ false
        → length (skip_one (span ends_value (skip_one (span is_equals (c ∷ s)).rest)).rest) ≤ fuel
    fewer e = ground (
      arith,
      length-span is_equals (c ∷ s),
      skip_one-lt (span is_equals (c ∷ s)).rest,
      length-span ends_value (skip_one (span is_equals (c ∷ s)).rest),
      length-skip_one (span ends_value (skip_one (span is_equals (c ∷ s)).rest)).rest,
    )

some_of_ne_none {ℓ} : {A : Type ℓ} (o : Option A) → o ≢ none → (a : A) × (o ≡ some a)
some_of_ne_none none h = absurd (h refl)
some_of_ne_none (some a) h = (a, refl)

parse_from_total :
    (o : Option Bytes) (r : HttpRequest)
    → (m : StringMap) × (parse_from o r ≡ some (record r { method_get_params = m }))
parse_from_total none r = (r.method_get_params, refl)
parse_from_total (some s) r =
    let (m, e) =
      some_of_ne_none (parse_params (length s) s r.method_get_params)
        (parse_params-ne-none (length s) s r.method_get_params (le_refl _)) in
    (m, rw e refl)

pub parse_url_total :
    (r : HttpRequest) → (m : StringMap) × (parse_url r ≡ some (record r { method_get_params = m }))
unfolding parse_url
parse_url_total r = parse_from_total (after_question r.url) r

-- One round, also where nothing is left.
pub parse_params-suc :
    (fuel : ℕ) (s : Bytes) (m : StringMap) (key value : Span)
    → span is_equals s ≡ key
    → span ends_value (skip_one key.rest) ≡ value
    → parse_params (suc fuel) s m ≡ (
        if length key.rest == 0
        then some m
        else parse_params fuel (skip_one value.rest) (assign key.passed value.passed m))
unfolding parse_params
parse_params-suc fuel [] m key value k v =
    unfold span in ground (arith, ap length (ap (λ (t : Span). t.rest) k))
parse_params-suc fuel (c ∷ s) m key value k v = cc

-- Parameters as a query string, and as entries of the map.
unfoldable pub query : List (Bytes × Bytes) → Bytes
query [] = []
query ((k, v) ∷ []) = k ++ (b'=' ∷ v)
query ((k, v) ∷ (p ∷ ps)) = k ++ (b'=' ∷ (v ++ (b'&' ∷ query (p ∷ ps))))

unfoldable pub assign_all : List (Bytes × Bytes) → StringMap → StringMap
assign_all [] m = m
assign_all ((k, v) ∷ ps) m = assign_all ps (assign k v m)

-- A name has no '=', and a value no '&' and no blank.
abbrev pub IsParam : Bytes × Bytes → Type 0
IsParam (k, v) = All (λ c. is_equals c ≡ false) k × All (λ c. ends_value c ≡ false) v
