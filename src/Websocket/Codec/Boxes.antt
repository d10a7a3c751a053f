-- ===== src/Websocket/Codec/Boxes.antt =====
-- What the callbacks are for any frames at all, continuation frames in the middle of a message
-- among them: a box of bytes for each kind of message, and a mark at the box that is being filled.
use mathlib.Core.Path.{subst}
use woody.Shared.{
  ℕ, ◌≡◌, refl, sym, ap₂, inl, inr, Bool, true, false, Option, none, some, List, [], ◌∷◌, ◌++◌,
  ==_iff, ◌==◌, if◌then◌else◌, arith, Bool-cases,
}
use woody.Websocket.Frame.{WebsocketFrame}
use woody.Websocket.Message.{
  MessageType, none_message, text_message, binary_message, new_message, append, clean_up,
}
use woody.Websocket.Codec.{
  Event, on_close, on_ping, on_pong, on_error, WebsocketCodec, Handled, refuse, append_text,
  append_binary, on_continuation_frame, on_text_frame, on_binary_frame, on_close_frame,
  on_ping_frame, on_pong_frame, on_parsed_frame,
}
use woody.Websocket.Codec.Assembly.{
  Kind, text, binary, Assembled, assembled, announce, message, IsTaken, payload,
  handle_frame_body_lem, receive,
}
use woody.Websocket.Codec.Receiving.{IsReceiving}
use woody.Websocket.Codec.Refusals.{is_turned_down, Decides, on_parsed_frame-Decides}
use woody.Websocket.Codec.Sequences.{harmless, keyed_taken, no_test, is_known}

pub record Boxes : Type 0 where
  pub mark : Option Kind
  pub text_box : List ℕ
  pub binary_box : List ℕ

abbrev pub box : Kind → Boxes → List ℕ
box text s = s.text_box
box binary s = s.binary_box

abbrev pub set_box : Kind → List ℕ → Boxes → Boxes
set_box text bytes s = record s { text_box = bytes }
set_box binary bytes s = record s { binary_box = bytes }

-- More bytes in a box: on a final frame what the box then holds is announced and the box emptied.
-- The mark behind it is `m` unless the frame is final.
abbrev pub pour : Kind → Option Kind → List ℕ → ℕ → Boxes → Assembled Boxes
pour k m bytes fin s =
    if fin == 1
    then assembled (set_box k [] (record s { mark = none })) (announce k (box k s ++ bytes) ∷ [])
    else assembled (set_box k (box k s ++ bytes) (record s { mark = m })) []

-- A continuation goes into the marked box, and takes the mark away.
abbrev pub pour_marked : Option Kind → List ℕ → ℕ → Boxes → Assembled Boxes
pour_marked none bytes fin s = assembled s (on_error ∷ [])
pour_marked (some k) bytes fin s = pour k none bytes fin s

abbrev pub mark_type : Option Kind → MessageType
mark_type none = none_message
mark_type (some text) = text_message
mark_type (some binary) = binary_message

abbrev pub collect : ℕ → ℕ → List ℕ → Boxes → Assembled Boxes
collect opcode fin bytes s =
    if opcode == 0
    then pour_marked s.mark bytes fin s
    else if opcode == 1
    then pour text (some text) bytes fin s
    else if opcode == 2
    then pour binary (some binary) bytes fin s
    else if opcode == 8
    then assembled s (on_close (message bytes) ∷ [])
    else if opcode == 9
    then assembled s (on_ping new_message ∷ [])
    else if opcode == 10
    then assembled s (on_pong new_message ∷ [])
    else assembled s []

abbrev pub collect_frame : WebsocketFrame → Boxes → Assembled Boxes
collect_frame f s =
    if is_turned_down f (mark_type s.mark)
    then assembled s (on_error ∷ [])
    else collect f.opcode f.fin (payload f) s

unfoldable pub collect_frames : List WebsocketFrame → Boxes → List Event
collect_frames [] s = []
collect_frames (f ∷ fs) s = let a = collect_frame f s in a.events ++ collect_frames fs a.assembly

abbrev pub no_boxes : Boxes
no_boxes = record { mark = none; text_box = []; binary_box = [] }

-- The codec's fields that stand for the boxes.
abbrev pub Stores : WebsocketCodec → Boxes → Type 0
Stores c s =
    (c.is_expected_masking ≡ true)
    × (c.cur_message_type ≡ mark_type s.mark)
    × (c.text ≡ message s.text_box)
    × (c.binary ≡ message s.binary_box)

mark_type-IsReceiving : (m : Option Kind) → IsReceiving (mark_type m)
mark_type-IsReceiving none = tt
mark_type-IsReceiving (some text) = tt
mark_type-IsReceiving (some binary) = tt

abbrev Keeps : Handled → Assembled Boxes → Type 0
Keeps h a = Stores h.codec a.assembly × (h.events ≡ a.events)

module _ (f : WebsocketFrame) (t : IsTaken f) (c : WebsocketCodec) where
  on_text_frame-Keeps :
      (s : Boxes)
      → Stores c s
      → s.mark ≡ none
      → Keeps (on_text_frame f c) (pour text (some text) (payload f) f.fin s)
  unfolding on_text_frame append_text append clean_up
  on_text_frame-Keeps s (m, k, x, y) e = rw (handle_frame_body_lem f c m t, k, e) (ground arith)

  on_binary_frame-Keeps :
      (s : Boxes)
      → Stores c s
      → s.mark ≡ none
      → Keeps (on_binary_frame f c) (pour binary (some binary) (payload f) f.fin s)
  unfolding on_binary_frame append_binary append clean_up
  on_binary_frame-Keeps s (m, k, x, y) e = rw (handle_frame_body_lem f c m t, k, e) (ground arith)

  on_continuation_frame-Keeps :
      (s : Boxes) (k : Kind)
      → Stores c s
      → s.mark ≡ some k
      → Keeps (on_continuation_frame f c) (pour k none (payload f) f.fin s)
  unfolding on_continuation_frame append_text append_binary append clean_up
  on_continuation_frame-Keeps s text (m, k, x, y) e =
      rw (handle_frame_body_lem f c m t, k, e) (ground arith)
  on_continuation_frame-Keeps s binary (m, k, x, y) e =
      rw (handle_frame_body_lem f c m t, k, e) (ground arith)

-- Where a frame is no violation, a new message comes at no mark, and a continuation at one.
marked_or_not :
    (f : WebsocketFrame) (m : Option Kind)
    → is_turned_down f (mark_type m) ≡ false
    → (f.opcode ≡ 0 → (k : Kind) × (m ≡ some k))
      × (f.opcode ≡ 1 → m ≡ none)
      × (f.opcode ≡ 2 → m ≡ none)
marked_or_not f none v = ((λ e. absurd (ground (arith, v))), (λ e. refl), (λ e. refl))
marked_or_not f (some text) v =
    ((λ e. (text, refl)), (λ e. absurd (ground (arith, v))), (λ e. absurd (ground (arith, v))))
marked_or_not f (some binary) v =
    ((λ e. (binary, refl)), (λ e. absurd (ground (arith, v))), (λ e. absurd (ground (arith, v))))

module _ (f : WebsocketFrame) (c : WebsocketCodec) (s : Boxes) (r : Stores c s) where
  taken_kept :
      IsTaken f
      → is_turned_down f (mark_type s.mark) ≡ false
      → Keeps (on_parsed_frame f c) (collect f.opcode f.fin (payload f) s)
  unfolding on_parsed_frame on_close_frame on_ping_frame on_pong_frame append
  taken_kept t v =
      let (at_zero, at_one, at_two) = marked_or_not f s.mark v in
      elim (Bool-cases (f.opcode == 0)) [
        | inl e ↦
            let (k, m) = at_zero ((==_iff _ _).0 e) in
            rw e (
              subst
                (λ (o : Option Kind).
                  Keeps (on_continuation_frame f c) (pour_marked o (payload f) f.fin s))
                (sym m) (on_continuation_frame-Keeps f t c s k r m))
        | inr e0 ↦ rw e0 (elim (Bool-cases (f.opcode == 1)) [
          | inl e ↦ rw e (on_text_frame-Keeps f t c s r (at_one ((==_iff _ _).0 e)))
          | inr e1 ↦ rw e1 (elim (Bool-cases (f.opcode == 2)) [
            | inl e ↦ rw e (on_binary_frame-Keeps f t c s r (at_two ((==_iff _ _).0 e)))
            | inr e2 ↦ rw (e2, handle_frame_body_lem f c r.0 t) (ground arith)
          ])
        ])
      ]

  unknown_kept :
      is_known f.opcode ≡ false → Keeps (on_parsed_frame f c) (collect f.opcode f.fin (payload f) s)
  unfolding on_parsed_frame
  unknown_kept u =
      let (e0, e1, e2, e8, e9, e10) = no_test f.opcode u in rw (e0, e1, e2, e8, e9, e10) (r, refl)

  receiving : IsReceiving c.cur_message_type
  receiving = rw r.1 (mark_type-IsReceiving s.mark)

  pub collect_frame-Keeps : Keeps (on_parsed_frame f c) (collect_frame f s)
  collect_frame-Keeps =
      let decides =
        subst (λ (t : MessageType). Decides (is_turned_down f t) c (on_parsed_frame f c)) r.1
          (on_parsed_frame-Decides f c r.0 receiving) in
      elim (Bool-cases (is_turned_down f (mark_type s.mark))) [
        | inl e ↦
            let gone : on_parsed_frame f c ≡ refuse c =
              subst (λ (b : Bool). Decides b c (on_parsed_frame f c)) e decides in
            rw (e, gone) (r, refl)
        | inr e ↦ rw e (elim (harmless f (mark_type s.mark) e) [
          | inl u ↦ unknown_kept u
          | inr k ↦ taken_kept (keyed_taken f k) e
        ])
      ]

-- Over any sequence of frames whatever, the callbacks of a codec whose fields stand for the boxes
-- are those that the boxes give, in order: a frame that the codec turns down is an error and nothing
-- else, a first frame's payload is added to the box of its kind, and a continuation's payload to the
-- marked box; a final frame announces all that its box then holds and empties it; and the mark is
-- there behind a first frame that is not final, and behind nothing else.
pub receive-collect_frames :
    (fs : List WebsocketFrame) (c : WebsocketCodec) (s : Boxes)
    → Stores c s
    → receive fs c ≡ collect_frames fs s
unfolding receive collect_frames
receive-collect_frames [] c s r = refl
receive-collect_frames (f ∷ fs) c s r =
    let a = collect_frame-Keeps f c s r in ap₂ ◌++◌ a.1 (receive-collect_frames fs _ _ a.0)
