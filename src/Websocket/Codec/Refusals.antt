-- ===== src/Websocket/Codec/Refusals.antt =====
-- The frames that the codec refuses.
use woody.Shared.{
  ==_iff, ℕ, ◌≡◌, refl, inl, inr, Bool, true, false, not, ◌&&◌, ◌||◌, List, [], ◌∷◌, ◌==◌,
  if◌then◌else◌, arith, Bool-cases,
}
use woody.Websocket.Frame.{WebsocketFrame}
use woody.Websocket.Message.{
  MessageType, none_message, text_message, binary_message, close_message, ping_message,
  pong_message, new_message, append,
}
use woody.Websocket.Parser.{truth}
use woody.Websocket.Codec.{
  Event, on_text, on_binary, on_close, on_ping, on_pong, on_error, WebsocketCodec, Handled, handled,
  refuse, set_type, is_empty, is_none, with_body, end_message, end_continuation, continue_message,
  handle_frame_body, append_text, append_binary, on_continuation_frame, on_text_frame,
  on_binary_frame, on_close_frame, on_ping_frame, on_pong_frame, on_parsed_frame,
}
use woody.Websocket.Codec.Assembly.{payload}
use woody.Websocket.Codec.Receiving.{IsReceiving}

-- A frame with a payload and no key.
abbrev pub is_unkeyed : WebsocketFrame → Bool
is_unkeyed f = not (is_empty f.body) && not (truth f.masking_key)

abbrev starts_message : ℕ → Bool
starts_message opcode = opcode == 1 || opcode == 2

abbrev is_control : ℕ → Bool
is_control opcode = opcode == 8 || opcode == 9 || opcode == 10

-- A frame that has no place where it comes: it continues a message where there is none, or starts
-- one inside another.
abbrev pub is_misplaced : WebsocketFrame → MessageType → Bool
is_misplaced f t = if is_none t then f.opcode == 0 else starts_message f.opcode

-- The frames that the codec turns down, which are not those that RFC 6455 forbids: a masked frame
-- with the key 0 is turned down, while frames of reserved opcodes are ignored, and an unmasked frame
-- with the key of an earlier one and a control frame of any length are taken.
abbrev pub is_turned_down : WebsocketFrame → MessageType → Bool
is_turned_down f t =
    (f.opcode == 0 || starts_message f.opcode || is_control f.opcode)
    && (is_unkeyed f || is_misplaced f t)

abbrev is_error : Event → Bool
is_error on_error = true
is_error (on_text m) = false
is_error (on_binary m) = false
is_error (on_close m) = false
is_error (on_ping m) = false
is_error (on_pong m) = false

abbrev pub has_error : List Event → Bool
has_error [] = false
has_error (e ∷ es) = is_error e || has_error es

-- A handler that takes the frame returns true and does not call the error callback.
abbrev pub IsTakenBy : Handled → Type 0
IsTakenBy h = (h.success ≡ true) × (has_error h.events ≡ false)

-- What a handler makes of a frame that is refused exactly where `bad` holds.
abbrev pub Decides : Bool → WebsocketCodec → Handled → Type 0
Decides true c h = h ≡ refuse c
Decides false c h = IsTakenBy h

with_body_lem :
    (f : WebsocketFrame) (c : WebsocketCodec) (k : List ℕ → Handled)
    → c.is_expected_masking ≡ true
    → with_body f c k ≡ (if is_unkeyed f then refuse c else k (payload f))
unfolding handle_frame_body payload
with_body_lem f c k e = ground arith

with_body-Decides :
    (bad : Bool) (f : WebsocketFrame) (c : WebsocketCodec) (k : List ℕ → Handled)
    → c.is_expected_masking ≡ true
    → Decides bad c (k (payload f))
    → Decides (is_unkeyed f || bad) c (with_body f c k)
with_body-Decides bad f c k e h =
    rw (with_body_lem f c k e)
      (elim (Bool-cases (is_unkeyed f)) [ inl u ↦ rw u refl | inr u ↦ rw u h ])

append_text-IsTakenBy :
    (f : WebsocketFrame) (body : List ℕ) (c : WebsocketCodec) → IsTakenBy (append_text f body c)
unfolding append_text
append_text-IsTakenBy f body c = ground arith

append_binary-IsTakenBy :
    (f : WebsocketFrame) (body : List ℕ) (c : WebsocketCodec) → IsTakenBy (append_binary f body c)
unfolding append_binary
append_binary-IsTakenBy f body c = ground arith

end_message-IsTakenBy :
    (f : WebsocketFrame) (r : Handled) → IsTakenBy r → IsTakenBy (end_message f r)
end_message-IsTakenBy f r h = elim (Bool-cases (f.fin == 1)) [
  | inl e ↦ rw e (refl, h.1)
  | inr e ↦ rw e h
]

continued :
    (t : MessageType) (f : WebsocketFrame) (body : List ℕ) (c : WebsocketCodec)
    → IsReceiving t
    → Decides (is_none t) c (end_continuation (continue_message t f body c))
continued none_message f body c r = refl
continued text_message f body c r =
    let (well, quiet) = append_text-IsTakenBy f body c in rw well (refl, quiet)
continued binary_message f body c r =
    let (well, quiet) = append_binary-IsTakenBy f body c in rw well (refl, quiet)
continued close_message f body c r = absurd r
continued ping_message f body c r = absurd r
continued pong_message f body c r = absurd r

-- A message begins where there is none.
begun :
    (t : MessageType) (f : WebsocketFrame) (c : WebsocketCodec) (r : Handled)
    → IsTakenBy r
    → Decides (not (is_none t)) c (if is_none t then end_message f r else refuse c)
begun t f c r h = elim (Bool-cases (is_none t)) [
  | inl e ↦ rw e (end_message-IsTakenBy f r h)
  | inr e ↦ rw e refl
]

-- What is a violation, opcode by opcode.
module _ (f : WebsocketFrame) (t : MessageType) where
  turned_down_continuation : f.opcode ≡ 0 → is_turned_down f t ≡ (is_unkeyed f || is_none t)
  turned_down_continuation e =
      rw e (elim (Bool-cases (is_none t)) [ inl n ↦ rw n refl | inr n ↦ rw n refl ])

  turned_down_message :
      starts_message f.opcode ≡ true → is_turned_down f t ≡ (is_unkeyed f || not (is_none t))
  turned_down_message e = ground arith

  turned_down_control : is_control f.opcode ≡ true → is_turned_down f t ≡ (is_unkeyed f || false)
  turned_down_control e = ground arith

module _ (f : WebsocketFrame) (c : WebsocketCodec) (masking : c.is_expected_masking ≡ true)
    (receiving : IsReceiving c.cur_message_type) where
  message_frames-Decides :
      Decides (is_unkeyed f || is_none c.cur_message_type) c (on_continuation_frame f c)
      × Decides (is_unkeyed f || not (is_none c.cur_message_type)) c (on_text_frame f c)
      × Decides (is_unkeyed f || not (is_none c.cur_message_type)) c (on_binary_frame f c)
  unfolding on_continuation_frame on_text_frame on_binary_frame
  message_frames-Decides =
      let t = c.cur_message_type in
      let b = payload f in
      (
        with_body-Decides (is_none t) f c
            (λ (body : List ℕ). end_continuation (continue_message t f body c)) masking
            (continued t f b c receiving),
        with_body-Decides (not (is_none t)) f c
            (λ (body : List ℕ).
              if is_none t
              then end_message f (append_text f body (set_type text_message c))
              else refuse c)
            masking
            (begun t f c (append_text f b (set_type text_message c))
              (append_text-IsTakenBy f b (set_type text_message c))),
        with_body-Decides (not (is_none t)) f c
            (λ (body : List ℕ).
              if is_none t
              then end_message f (append_binary f body (set_type binary_message c))
              else refuse c)
            masking
            (begun t f c (append_binary f b (set_type binary_message c))
              (append_binary-IsTakenBy f b (set_type binary_message c))),
      )

  control_frames-Decides :
      Decides (is_unkeyed f || false) c (on_close_frame f c)
      × Decides (is_unkeyed f || false) c (on_ping_frame f c)
      × Decides (is_unkeyed f || false) c (on_pong_frame f c)
  unfolding on_close_frame on_ping_frame on_pong_frame
  control_frames-Decides = (
    with_body-Decides false f c
        (λ (body : List ℕ). handled true c (on_close (append body new_message) ∷ [])) masking
        (refl, refl),
    with_body-Decides false f c (λ (body : List ℕ). handled true c (on_ping new_message ∷ []))
        masking (refl, refl),
    with_body-Decides false f c (λ (body : List ℕ). handled true c (on_pong new_message ∷ []))
        masking (refl, refl),
  )

  -- Where masking is expected and what is being assembled is no message or a text or binary one:
  -- a frame that the codec turns down is refused, with the error callback and nothing else, and the
  -- codec stays as it is; any other frame is taken, without the error callback.
  pub on_parsed_frame-Decides :
      Decides (is_turned_down f c.cur_message_type) c (on_parsed_frame f c)
  unfolding on_parsed_frame
  on_parsed_frame-Decides =
      let t = c.cur_message_type in
      let (k, x, b) = message_frames-Decides in
      let (q, i, o) = control_frames-Decides in
      elim (Bool-cases (f.opcode == 0)) [
        | inl e ↦ rw (turned_down_continuation f t ((==_iff _ _).0 e)) (rw e k)
        | inr e0 ↦ elim (Bool-cases (f.opcode == 1)) [
          | inl e ↦ rw (turned_down_message f t (rw e refl)) (rw (e0, e) x)
          | inr e1 ↦ elim (Bool-cases (f.opcode == 2)) [
            | inl e ↦ rw (turned_down_message f t (rw (e1, e) refl)) (rw (e0, e1, e) b)
            | inr e2 ↦ elim (Bool-cases (f.opcode == 8)) [
              | inl e ↦ rw (turned_down_control f t (rw e refl)) (rw (e0, e1, e2, e) q)
              | inr e8 ↦ elim (Bool-cases (f.opcode == 9)) [
                | inl e ↦ rw (turned_down_control f t (rw (e8, e) refl)) (rw (e0, e1, e2, e8, e) i)
                | inr e9 ↦ elim (Bool-cases (f.opcode == 10)) [
                  | inl e ↦
                      rw (turned_down_control f t (rw (e8, e9, e) refl))
                        (rw (e0, e1, e2, e8, e9, e) o)
                  | inr e10 ↦ rw (e0, e1, e2, e8, e9, e10) (refl, refl)
                ]
              ]
            ]
          ]
        ]
      ]
