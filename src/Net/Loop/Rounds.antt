-- ===== src/Net/Loop/Rounds.antt =====
-- One round of the loop, by what the codec gave.
use woody.Shared.{
  ℕ, zero, suc, ◌≤◌, ◌<◌, ◌≡◌, ◌≢◌, refl, ◌∙◌, true, not, ◌||◌, List, [], ◌∷◌, ◌++◌, append-nil,
  length, length-drop, drop, drop_all, ap, sym, ◌-◌, ◌==◌, arith, le→ltb, ne→==,
}
use woody.Net.Buffer.{Buffer}
use woody.Net.Loop.{Fed, finished, overrun, go_on, put_back, loop, on_data}

module _ (m : Buffer) {S E : Type 0} (feed : List ℕ → S → Fed S E) where
  open m use {
    Buf, readable, retrieve_all, prepend, prependable, cheap_prepend, retrieve_all_empties,
    retrieve_all_room, prepend_fits, prepend_overruns,
  }

  pub loop_empty :
      (fuel : ℕ) (b : Buf) (c : S) (es : List E)
      → readable b ≡ []
      → loop m feed fuel b c es ≡ finished b c es
  unfolding loop
  loop_empty zero b c es e = rw e refl
  loop_empty (suc fuel) b c es e = rw e refl

  pub nonempty : (s : List ℕ) → s ≢ [] → length s ≢ 0
  nonempty [] h = absurd (h refl)
  nonempty (x ∷ s) h = omega arith

  enter :
      (fuel : ℕ) (b : Buf) (c : S) (es : List E)
      → readable b ≢ []
      → loop m feed (suc fuel) b c es
        ≡ put_back m (readable b) b es (feed (readable b) c) (λ b'.
          loop m feed fuel b' (feed (readable b) c).codec (es ++ (feed (readable b) c).events))
  unfolding loop
  enter fuel b c es h = rw (ne→== (length (readable b)) 0 (nonempty (readable b) h)) refl

  -- The codec failed, or took nothing: the loop ends, with the buffer emptied.
  pub loop_stop :
      (fuel : ℕ) (b : Buf) (c : S) (es : List E)
      → readable b ≢ []
      → (not (feed (readable b) c).success || (feed (readable b) c).parsed_bytes == 0) ≡ true
      → loop m feed (suc fuel) b c es
        ≡ finished (retrieve_all b) (feed (readable b) c).codec (es ++ (feed (readable b) c).events)
  unfolding put_back
  loop_stop fuel b c es h e = enter fuel b c es h ∙ rw e refl

  module _ (fuel : ℕ) (b : Buf) (c : S) (es : List E) {d : Fed S E} (h : readable b ≢ [])
      (fed : feed (readable b) c ≡ d) (well : d.success ≡ true) (pos : d.parsed_bytes ≢ 0)
      (within : d.parsed_bytes ≤ length (readable b)) where
    put_back_lem :
        loop m feed (suc fuel) b c es
        ≡ go_on m
            (prepend (drop d.parsed_bytes (readable b)) (retrieve_all b))
            (λ b'. loop m feed fuel b' d.codec (es ++ d.events))
    unfolding put_back
    put_back_lem =
        enter fuel b c es h
        ∙ rw
            (
              fed,
              well,
              ne→== d.parsed_bytes 0 pos,
              le→ltb (length (readable b)) d.parsed_bytes within,
            )
            refl

    -- The codec took some bytes, and the rest fits in front of the emptied buffer: the loop goes
    -- on with the rest.
    pub loop_step :
        length (drop d.parsed_bytes (readable b)) ≤ cheap_prepend
        → (b' : Buf) × (readable b' ≡ drop d.parsed_bytes (readable b))
          × (loop m feed (suc fuel) b c es ≡ loop m feed fuel b' d.codec (es ++ d.events))
    loop_step room =
        let (b', e, r) =
          prepend_fits (drop d.parsed_bytes (readable b)) (retrieve_all b)
            (rw (retrieve_all_room b) room) in
        (b', r ∙ rw (retrieve_all_empties b) (append-nil _), put_back_lem ∙ rw e refl)

    -- The rest does not fit: the assertion in `prepend` fails.
    pub loop_overrun :
        cheap_prepend < length (drop d.parsed_bytes (readable b))
        → loop m feed (suc fuel) b c es ≡ overrun
    loop_overrun over =
        put_back_lem
        ∙ rw
            (prepend_overruns (drop d.parsed_bytes (readable b)) (retrieve_all b)
              (rw (retrieve_all_room b) over))
            refl

  -- The codec succeeded and took the whole buffer: the loop ends behind this one call.
  pub on_data_whole :
      (b : Buf) (c : S) {d : Fed S E}
      → readable b ≢ []
      → feed (readable b) c ≡ d
      → d.success ≡ true
      → d.parsed_bytes ≡ length (readable b)
      → (b' : Buf) × (readable b' ≡ []) × (on_data m feed b c ≡ finished b' d.codec d.events)
  unfolding on_data
  on_data_whole b c {d} h fed well all =
      let gone : drop d.parsed_bytes (readable b) ≡ [] =
        drop_all (readable b) d.parsed_bytes (omega arith) in
      let n = nonempty (readable b) h in
      let enough : length (readable b) ≡ suc (length (readable b) - 1) = omega arith in
      let (b', r, e) =
        loop_step (length (readable b) - 1) b c [] h fed well (λ z. n (sym all ∙ z))
          (omega (arith, all)) (omega (arith, ap (λ (s : List ℕ). length s) gone)) in
      (
        b',
        r ∙ gone,
        ap (λ (fuel : ℕ). loop m feed fuel b c []) enough
            ∙ e
            ∙ loop_empty (length (readable b) - 1) b' d.codec d.events (r ∙ gone),
      )

  -- The codec took a part of the buffer, and nothing of the rest: the loop ends behind two calls.
  pub on_data_twice :
      (b : Buf) (c : S) (rest : List ℕ) {d d' : Fed S E}
      → feed (readable b) c ≡ d
      → d.success ≡ true
      → d.parsed_bytes ≢ 0
      → drop d.parsed_bytes (readable b) ≡ rest
      → rest ≢ []
      → length rest ≤ cheap_prepend
      → feed rest d.codec ≡ d'
      → (not d'.success || d'.parsed_bytes == 0) ≡ true
      → (b' : Buf) × (readable b' ≡ [])
        × (on_data m feed b c ≡ finished b' d'.codec (d.events ++ d'.events))
  unfolding on_data
  on_data_twice b c rest {d} {d'} fed well pos cut full room fed' stops =
      let size : length rest ≡ length (readable b) - d.parsed_bytes =
        ap (λ (s : List ℕ). length s) (sym cut) ∙ length-drop d.parsed_bytes (readable b) in
      let some_left = nonempty rest full in
      let fuel = length (readable b) - 2 in
      let enough : length (readable b) ≡ suc (suc fuel) = omega (arith, size, some_left) in
      let (b', r, e) =
        loop_step (suc fuel) b c [] {d = d}
          (λ z. absurd (omega (arith, size, some_left, ap (λ (s : List ℕ). length s) z))) fed well
          pos (omega (arith, size, some_left)) (rw cut room) in
      let again : feed (readable b') d.codec ≡ d' =
        ap (λ (s : List ℕ). feed s d.codec) (r ∙ cut) ∙ fed' in
      (
        retrieve_all b',
        retrieve_all_empties b',
        ap (λ (k : ℕ). loop m feed k b c []) enough
            ∙ e
            ∙ loop_stop fuel b' d.codec d.events (λ z. full (sym cut ∙ sym r ∙ z)) (rw again stops)
            ∙ rw again refl,
      )
