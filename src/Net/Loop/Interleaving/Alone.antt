-- ===== src/Net/Loop/Interleaving/Alone.antt =====
-- Each connection among the others, against the connection alone.
use mathlib.Core.Path.{subst}
use woody.Shared.{
  ◌≡◌, refl, sym, ap, ◌∙◌, true, false, some, List, [], ◌∷◌, ◌++◌, Bool-cases, inl, inr,
  if◌then◌else◌,
}
use woody.Shared.Text.{bytes_eq, bytes_eq→eq, bytes_eq_refl}
use woody.Base.StringMap.{Bytes}
use woody.Net.Loop.{Outcome, finished}
use woody.Net.Loop.Reads.{Served, served, reads}
use woody.Net.Loop.Reads.First.{IsFirst, first_lem}
use woody.Net.Loop.Interleaving.{Ran, ran, update, tag, run_events, actions_of, reads_of}

actions_of-tag :
    {E : Type 0} (j k : Bytes) (es : List E) (rest : List (Bytes × E))
    → actions_of j (tag k es ++ rest)
      ≡ (if bytes_eq k j then es ++ actions_of j rest else actions_of j rest)
actions_of-tag j k [] rest = elim (Bool-cases (bytes_eq k j)) [
  | inl e ↦ rw e refl
  | inr e ↦ rw e refl
]
actions_of-tag j k (x ∷ es) rest =
    rw (actions_of-tag j k es rest)
      (elim (Bool-cases (bytes_eq k j)) [ inl e ↦ rw e refl | inr e ↦ rw e refl ])

-- The reads of one connection, behind one read.
reads_of-own :
    {B : Type 0} (j k : Bytes) (b : B) (es : List (Bytes × B))
    → bytes_eq k j ≡ true
    → reads_of j ((k, b) ∷ es) ≡ b ∷ reads_of j es
reads_of-own j k b es e = rw e refl

reads_of-other :
    {B : Type 0} (j k : Bytes) (b : B) (es : List (Bytes × B))
    → bytes_eq k j ≡ false
    → reads_of j ((k, b) ∷ es) ≡ reads_of j es
reads_of-other j k b es e = rw e refl

module _ {B S E : Type 0} (on_read : B → S → Outcome B S E) where
  -- Alone, a connection's reads are served, with that result.
  abbrev pub Alone : List (Bytes × B) → (Bytes → S) → Bytes → Served S E → Type 0
  Alone es h j out = reads on_read (reads_of j es) (h j) ≡ some out

  own_first :
      (j k : Bytes) (b : B) (es : List (Bytes × B)) (h : Bytes → S) (out : Served S E)
      → bytes_eq k j ≡ true
      → Alone ((k, b) ∷ es) h j out
      → IsFirst (on_read b (h k)) (λ s. reads on_read (reads_of j es) s) out
  unfolding reads
  own_first j k b es h out same e =
      first_lem (on_read b (h k)) (λ s. reads on_read (reads_of j es) s) out
        (subst (λ (i : Bytes). reads on_read (b ∷ reads_of j es) (h i) ≡ some out)
          (sym (bytes_eq→eq k j same))
          (subst (λ (bs : List B). reads on_read bs (h j) ≡ some out) (reads_of-own j k b es same)
            e))

  Alone-other :
      (j k : Bytes) (b : B) (es : List (Bytes × B)) (h : Bytes → S) (s : S) (out : Served S E)
      → bytes_eq k j ≡ false
      → Alone ((k, b) ∷ es) h j out
      → Alone es (update k s h) j out
  Alone-other j k b es h s out other e =
      rw other (
        subst (λ (bs : List B). reads on_read bs (h j) ≡ some out) (reads_of-other j k b es other)
          e)

  Alone-own :
      (j k : Bytes) (es : List (Bytes × B)) (h : Bytes → S) (s : S) (out : Served S E)
      → bytes_eq k j ≡ true
      → reads on_read (reads_of j es) s ≡ some out
      → Alone es (update k s h) j out
  Alone-own j k es h s out same e = rw same e

  -- What all the reads come to: every connection's part is what it is alone.
  abbrev IsFair : List (Bytes × B) → (Bytes → S) → Ran S E → Type 0
  IsFair es h r =
      (j : Bytes) (out : Served S E)
      → Alone es h j out
      → (r.codecs j ≡ out.codec) × (actions_of j r.actions ≡ out.actions)

  same_end :
      {o : Outcome B S E} {b b' : B} {s s' : S} {as' as2 : List E}
      → o ≡ finished b s as'
      → o ≡ finished b' s' as2
      → (s ≡ s') × (as' ≡ as2)
  same_end e f = (cc (e, f), cc (e, f))

  nothing_read : (h : Bytes → S) → IsFair [] h (ran h [])
  unfolding reads
  nothing_read h j out e = (cc e, cc e)

  module _ (k : Bytes) (b : B) (es : List (Bytes × B)) (h : Bytes → S)
      (own : (j : Bytes) → (out : Served S E) × Alone ((k, b) ∷ es) h j out) where
    first : IsFirst (on_read b (h k)) (λ s. reads on_read (reads_of k es) s) (own k).0
    first = own_first k k b es h (own k).0 (bytes_eq_refl k) (own k).1

    abbrev behind : Bytes → S
    behind = update k first.codec h

    own_rest :
        (j : Bytes) (out : Served S E)
        → bytes_eq k j ≡ true
        → Alone ((k, b) ∷ es) h j out
        → (rest : Served S E) × Alone es behind j rest
          × (out ≡ served rest.codec (first.actions ++ rest.actions))
    own_rest j out same e =
        let g = own_first j k b es h out same e in
        let (codecs, acts) = same_end g.ends first.ends in
        (
          g.rest,
          Alone-own j k es h first.codec g.rest same
              (subst (λ (s : S). reads on_read (reads_of j es) s ≡ some g.rest) codecs g.goes_on),
          g.whole ∙ ap (λ (as' : List E). served g.rest.codec (as' ++ g.rest.actions)) acts,
        )

    own_behind : (j : Bytes) → (out : Served S E) × Alone es behind j out
    own_behind j = elim (Bool-cases (bytes_eq k j)) [
      | inl same ↦ let (rest, alone, w) = own_rest j (own j).0 same (own j).1 in (rest, alone)
      | inr other ↦ ((own j).0, Alone-other j k b es h first.codec (own j).0 other (own j).1)
    ]

    IsFair-behind :
        (r : Ran S E)
        → IsFair es behind r
        → IsFair ((k, b) ∷ es) h (ran r.codecs (tag k first.actions ++ r.actions))
    IsFair-behind r fair j out e = elim (Bool-cases (bytes_eq k j)) [
      | inl same ↦
          let (rest, alone, w) = own_rest j out same e in
          let (codec, acts) = fair j rest alone in
          rw w (
            codec,
            actions_of-tag j k first.actions r.actions
                ∙ rw same (ap (λ (as' : List E). first.actions ++ as') acts),
          )
      | inr other ↦
          let (codec, acts) = fair j out (Alone-other j k b es h first.codec out other e) in
          (codec, actions_of-tag j k first.actions r.actions ∙ rw other acts)
    ]

  run_fairly :
      (es : List (Bytes × B)) (h : Bytes → S)
      → ((j : Bytes) → (out : Served S E) × Alone es h j out)
      → (r : Ran S E) × (run_events on_read es h ≡ some r) × IsFair es h r
  unfolding run_events
  run_fairly [] h own = (ran h [], refl, nothing_read h)
  run_fairly ((k, b) ∷ es) h own =
      let f = first k b es h own in
      let (r, e, fair) = run_fairly es (behind k b es h own) (own_behind k b es h own) in
      (
        ran r.codecs (tag k f.actions ++ r.actions),
        rw (f.ends, e) refl,
        IsFair-behind k b es h own r fair,
      )

  -- However the reads of connections interleave: if the reads of each connection, alone, are all
  -- served, then all the reads together are served, and every connection comes to the codec that it
  -- comes to alone, with the actions that it makes alone, in order.
  pub run_events-Alone :
      (es : List (Bytes × B)) (h : Bytes → S) (out : Bytes → Served S E)
      → ((j : Bytes) → Alone es h j (out j))
      → (r : Ran S E) × (run_events on_read es h ≡ some r)
        × ((j : Bytes) → (r.codecs j ≡ (out j).codec) × (actions_of j r.actions ≡ (out j).actions))
  run_events-Alone es h out alone =
      let (r, e, fair) = run_fairly es h (λ j. (out j, alone j)) in
      (r, e, λ j. fair j (out j) (alone j))
