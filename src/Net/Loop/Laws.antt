-- ===== src/Net/Loop/Laws.antt =====
-- The end of the loop.
use native.Mathlib.Nat.{le_refl}
use woody.Shared.{
  ltb→lt, ℕ, zero, suc, ◌≤◌, ◌≡◌, ◌≢◌, ap, ◌∙◌, ◌⊎◌, inl, inr, not, ◌||◌, none, some, List, [],
  ◌++◌, append-nil, length, length-drop, drop, ltb, ◌==◌, arith, Bool-cases, ltb→le, ==_iff,
}
use woody.Net.Buffer.{Buffer}
use woody.Net.Loop.{Fed, Outcome, stuck, go_on, put_back, loop, on_data}

module _ (m : Buffer) where
  open m use {
    Buf, readable, retrieve_all, prepend, prependable, cheap_prepend, retrieve_all_empties,
    retrieve_all_room, prepend_fits, prepend_overruns,
  }

  -- Putting bytes back into the emptied buffer: the assertion fails, or they are its contents.
  pub prepend_cases :
      (s : List ℕ) (b : Buf)
      → (prepend s (retrieve_all b) ≡ none)
        ⊎ ((b' : Buf) × (prepend s (retrieve_all b) ≡ some b') × (readable b' ≡ s))
  prepend_cases s b = elim (Bool-cases (ltb (prependable (retrieve_all b)) (length s))) [
    | inl over ↦ inl (prepend_overruns s (retrieve_all b) (ltb→lt _ _ over))
    | inr fits ↦
        let (b', e, r) = prepend_fits s (retrieve_all b) (ltb→le _ _ fits) in
        inr (b', e, r ∙ rw retrieve_all_empties (append-nil s))
  ]

module _ (m : Buffer) {S E : Type 0} where
  open m use {Buf, readable, retrieve_all, prepend}

  go_on-ne-stuck :
      (bytes : List ℕ) (b : Buf) (next : Buf → Outcome Buf S E)
      → ((b' : Buf) → readable b' ≡ bytes → next b' ≢ stuck)
      → go_on m (prepend bytes (retrieve_all b)) next ≢ stuck
  go_on-ne-stuck bytes b next h = elim (prepend_cases m bytes b) [
    | inl e ↦ rw e (λ p. cc)
    | inr (b', e, r) ↦ rw e (h b' r)
  ]

  -- One round ends the loop, or goes on with a shorter buffer.
  put_back-ne-stuck :
      (bytes : List ℕ) (b : Buf) (es : List E) (d : Fed S E) (next : Buf → Outcome Buf S E)
      → ((b' : Buf)
          → readable b' ≡ drop d.parsed_bytes bytes
          → d.parsed_bytes ≢ 0
          → next b' ≢ stuck)
      → put_back m bytes b es d next ≢ stuck
  unfolding put_back
  put_back-ne-stuck bytes b es d next h = elim (Bool-cases (not d.success || d.parsed_bytes == 0)) [
    | inl e ↦ rw e (λ p. cc)
    | inr e ↦ rw e (elim (Bool-cases (ltb (length bytes) d.parsed_bytes)) [
      | inl o ↦ rw o (λ p. cc)
      | inr o ↦
          rw o (go_on-ne-stuck (drop d.parsed_bytes bytes) b next (λ b' r. h b' r (ground arith)))
    ])
  ]

module _ (m : Buffer) {S E : Type 0} (feed : List ℕ → S → Fed S E) where
  open m use {Buf, readable}

  loop-ne-stuck :
      (fuel : ℕ) (b : Buf) (c : S) (es : List E)
      → length (readable b) ≤ fuel
      → loop m feed fuel b c es ≢ stuck
  unfolding loop
  loop-ne-stuck zero b c es h = rw ((==_iff (length (readable b)) 0).1 (omega arith)) (λ p. cc)
  loop-ne-stuck (suc fuel) b c es h = elim (Bool-cases (length (readable b) == 0)) [
    | inl e ↦ rw e (λ p. cc)
    | inr e ↦
        let d = feed (readable b) c in
        rw e (
          put_back-ne-stuck m (readable b) b es d
            (λ b'. loop m feed fuel b' d.codec (es ++ d.events))
            (λ b' r pos.
              loop-ne-stuck fuel b' d.codec (es ++ d.events)
                (omega (arith, ap length r, length-drop d.parsed_bytes (readable b)))))
  ]

  -- Whatever the codec does and whatever the buffer holds, the loop ends within as many rounds as
  -- the buffer has bytes.
  pub on_data-ne-stuck : (b : Buf) (c : S) → on_data m feed b c ≢ stuck
  unfolding on_data
  on_data-ne-stuck b c = loop-ne-stuck (length (readable b)) b c [] (le_refl _)
