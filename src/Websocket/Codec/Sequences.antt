-- ===== src/Websocket/Codec/Sequences.antt =====
-- Any frames, one after the other, against the abstract assembler, the frames that break the
-- protocol among them.
use mathlib.Core.Path.{subst}
use woody.Shared.{
  ℕ, ◌≡◌, ◌≢◌, refl, ap₂, ◌⊎◌, inl, inr, Bool, false, not, ◌&&◌, ◌||◌, List, [], ◌∷◌, ◌++◌, All,
  ◌==◌, if◌then◌else◌, arith, Bool-cases,
}
use woody.Websocket.Frame.{WebsocketFrame}
use woody.Websocket.Message.{MessageType, none_message, text_message, binary_message}
use woody.Websocket.Codec.{Event, on_error, WebsocketCodec, refuse, is_empty, on_parsed_frame}
use woody.Websocket.Codec.Assembly.{
  Assembly, idle, partial, text, binary, Assembled, assembled, assemble, Represents, Agrees,
  IsTaken, payload, receive, on_parsed_frame-Agrees,
}
use woody.Websocket.Codec.Refusals.{is_unkeyed, is_turned_down, Decides, on_parsed_frame-Decides}
use woody.Websocket.Codec.Unmasked.{Represents-masking, Represents-IsReceiving}

-- The type of the message that the assembler is in.
abbrev pub type_of : Assembly → MessageType
type_of idle = none_message
type_of (partial text bytes) = text_message
type_of (partial binary bytes) = binary_message

-- A frame that the codec turns down is an error and changes nothing.
abbrev pub assemble_frame : WebsocketFrame → Assembly → Assembled Assembly
assemble_frame f s =
    if is_turned_down f (type_of s)
    then assembled s (on_error ∷ [])
    else assemble f.opcode f.fin (payload f) s

unfoldable pub assemble_frames : List WebsocketFrame → Assembly → List Event
assemble_frames [] s = []
assemble_frames (f ∷ fs) s = let a = assemble_frame f s in a.events ++ assemble_frames fs a.assembly

Represents-type :
    (c : WebsocketCodec) (s : Assembly) → Represents c s → c.cur_message_type ≡ type_of s
Represents-type c idle r = r.1
Represents-type c (partial text bytes) r = r.1
Represents-type c (partial binary bytes) r = r.1

abbrev pub is_known : ℕ → Bool
is_known o = o == 0 || (o == 1 || o == 2) || (o == 8 || o == 9 || o == 10)

pub keyed_taken : (f : WebsocketFrame) → is_unkeyed f ≡ false → IsTaken f
keyed_taken f h = go f.body h
  where
    go :
        (s : List ℕ)
        → (not (is_empty s) && not (not (f.masking_key == 0))) ≡ false
        → (s ≡ []) ⊎ (f.masking_key ≢ 0)
    go [] h = inl refl
    go (b ∷ s) h = inr (ground arith)

pub no_test :
    (o : ℕ)
    → is_known o ≡ false
    → ((o == 0) ≡ false)
      × ((o == 1) ≡ false)
      × ((o == 2) ≡ false)
      × ((o == 8) ≡ false)
      × ((o == 9) ≡ false)
      × ((o == 10) ≡ false)
no_test o h = ground arith

unknown_ignored :
    (f : WebsocketFrame) (c : WebsocketCodec) (s : Assembly)
    → is_known f.opcode ≡ false
    → Represents c s
    → Agrees (on_parsed_frame f c) (assemble f.opcode f.fin (payload f) s)
unfolding on_parsed_frame assemble
unknown_ignored f c s u r =
    let (e0, e1, e2, e8, e9, e10) = no_test f.opcode u in rw (e0, e1, e2, e8, e9, e10) (r, refl)

-- What is no violation is of a reserved opcode, or has a key.
pub harmless :
    (f : WebsocketFrame) (t : MessageType)
    → is_turned_down f t ≡ false
    → (is_known f.opcode ≡ false) ⊎ (is_unkeyed f ≡ false)
harmless f t h = elim (Bool-cases (is_known f.opcode)) [
  | inl k ↦ inr (ground (arith, rw k at h))
  | inr k ↦ inl k
]

pub assemble_frame-Agrees :
    (f : WebsocketFrame) (c : WebsocketCodec) (s : Assembly)
    → (f.opcode ≡ 0 → f.fin ≡ 1)
    → Represents c s
    → Agrees (on_parsed_frame f c) (assemble_frame f s)
assemble_frame-Agrees f c s final r =
    let decides =
      subst (λ (t : MessageType). Decides (is_turned_down f t) c (on_parsed_frame f c))
        (Represents-type c s r)
        (on_parsed_frame-Decides f c (Represents-masking c s r) (Represents-IsReceiving c s r)) in
    elim (Bool-cases (is_turned_down f (type_of s))) [
      | inl e ↦
          let gone : on_parsed_frame f c ≡ refuse c =
            subst (λ (b : Bool). Decides b c (on_parsed_frame f c)) e decides in
          rw (e, gone) (r, refl)
      | inr e ↦ rw e (elim (harmless f (type_of s) e) [
        | inl u ↦ unknown_ignored f c s u r
        | inr k ↦ on_parsed_frame-Agrees f (keyed_taken f k) c s r final
      ])
    ]

-- Over any sequence of frames, those that the codec turns down included, of which every continuation
-- frame is final, the callbacks of a codec that stands where the abstract assembler stands are those
-- of the assembler, in order, where a frame that the codec turns down is an error and nothing else.
pub receive-assemble_frames :
    (fs : List WebsocketFrame) (c : WebsocketCodec) (s : Assembly)
    → All (λ f. f.opcode ≡ 0 → f.fin ≡ 1) fs
    → Represents c s
    → receive fs c ≡ assemble_frames fs s
unfolding receive assemble_frames
receive-assemble_frames [] c s h r = refl
receive-assemble_frames (f ∷ fs) c s h r =
    let a = assemble_frame-Agrees f c s h.0 r in
    ap₂ ◌++◌ a.1 (receive-assemble_frames fs _ _ h.1 a.0)
