-- ===== src/Websocket/Codec/Receiving.antt =====
-- The type of the message that is being received, `cur_message_type_`, over every frame handler.
use woody.Shared.{
  ℕ, ◌≡◌, arith, ◌∷◌, Bool, true, false, Bool-cases, inl, inr, List, [], ◌==◌, if◌then◌else◌,
}
use woody.Websocket.Frame.{
  WebsocketFrame, opcode_continuation, opcode_text, opcode_binary, opcode_close, opcode_ping,
  opcode_pong,
}
use woody.Websocket.Message.{
  MessageType, none_message, text_message, binary_message, close_message, ping_message,
  pong_message, append, new_message,
}
use woody.Websocket.Codec.{
  on_close, on_ping, on_pong, WebsocketCodec, Handled, handled, refuse, set_type, is_none,
  with_body, end_message, handle_frame_body, append_text, append_binary, continue_message,
  end_continuation, on_continuation_frame, on_text_frame, on_binary_frame, on_close_frame,
  on_ping_frame, on_pong_frame, on_parsed_frame,
}

-- None, text or binary.
abbrev pub IsReceiving : MessageType → Type 0
IsReceiving none_message = Unit
IsReceiving text_message = Unit
IsReceiving binary_message = Unit
IsReceiving close_message = ⊥
IsReceiving ping_message = ⊥
IsReceiving pong_message = ⊥

abbrev Receives : Handled → Type 0
Receives h = IsReceiving h.codec.cur_message_type

refused_or :
    (f : WebsocketFrame) (c : WebsocketCodec) (k : List ℕ → Handled)
    → Receives (handled true c [])
    → ((body : List ℕ) → Receives (k body))
    → Receives (with_body f c k)
refused_or f c k h each = elim (Bool-cases (handle_frame_body f c).success) [
  | inl e ↦ rw e (each (handle_frame_body f c).handled_body)
  | inr e ↦ rw e h
]

append_text-type :
    (f : WebsocketFrame) (body : List ℕ) (c : WebsocketCodec)
    → (append_text f body c).codec.cur_message_type ≡ c.cur_message_type
unfolding append_text
append_text-type f body c = ground arith

append_binary-type :
    (f : WebsocketFrame) (body : List ℕ) (c : WebsocketCodec)
    → (append_binary f body c).codec.cur_message_type ≡ c.cur_message_type
unfolding append_binary
append_binary-type f body c = ground arith

end_message-IsReceiving :
    (f : WebsocketFrame) (r : Handled) → Receives r → Receives (end_message f r)
end_message-IsReceiving f r h = elim (Bool-cases (f.fin == 1)) [ inl e ↦ rw e tt | inr e ↦ rw e h ]

start_text-IsReceiving :
    (t : MessageType) (f : WebsocketFrame) (body : List ℕ) (c : WebsocketCodec)
    → Receives (handled true c [])
    → Receives (
        if is_none t
        then end_message f (append_text f body (set_type text_message c))
        else refuse c)
start_text-IsReceiving t f body c h = elim (Bool-cases (is_none t)) [
  | inl e ↦ rw e (
      end_message-IsReceiving f (append_text f body (set_type text_message c))
        (rw (append_text-type f body (set_type text_message c)) tt))
  | inr e ↦ rw e h
]

start_binary-IsReceiving :
    (t : MessageType) (f : WebsocketFrame) (body : List ℕ) (c : WebsocketCodec)
    → Receives (handled true c [])
    → Receives (
        if is_none t
        then end_message f (append_binary f body (set_type binary_message c))
        else refuse c)
start_binary-IsReceiving t f body c h = elim (Bool-cases (is_none t)) [
  | inl e ↦ rw e (
      end_message-IsReceiving f (append_binary f body (set_type binary_message c))
        (rw (append_binary-type f body (set_type binary_message c)) tt))
  | inr e ↦ rw e h
]

end_continuation-IsReceiving : (r : Handled) → Receives r → Receives (end_continuation r)
end_continuation-IsReceiving r h = elim (Bool-cases r.success) [ inl e ↦ rw e tt | inr e ↦ rw e h ]

continue_message-IsReceiving :
    (t : MessageType) (f : WebsocketFrame) (body : List ℕ) (c : WebsocketCodec)
    → Receives (handled true c [])
    → Receives (continue_message t f body c)
continue_message-IsReceiving none_message f body c h = h
continue_message-IsReceiving text_message f body c h = rw (append_text-type f body c) h
continue_message-IsReceiving binary_message f body c h = rw (append_binary-type f body c) h
continue_message-IsReceiving close_message f body c h = h
continue_message-IsReceiving ping_message f body c h = h
continue_message-IsReceiving pong_message f body c h = h

branch {ℓ κ} :
    {A : Type ℓ} (P : A → Type κ) (b : Bool) (x : A) {y : A} → P x → P y → P (if b then x else y)
branch P true x h k = h
branch P false x h k = k

module _ (f : WebsocketFrame) (c : WebsocketCodec) (h : IsReceiving c.cur_message_type) where
  on_message_frame-IsReceiving :
      Receives (on_continuation_frame f c)
      × Receives (on_text_frame f c)
      × Receives (on_binary_frame f c)
  unfolding on_continuation_frame on_text_frame on_binary_frame
  on_message_frame-IsReceiving = (
    refused_or f c
        (λ (body : List ℕ). end_continuation (continue_message c.cur_message_type f body c)) h
        (λ body.
          end_continuation-IsReceiving (continue_message c.cur_message_type f body c)
            (continue_message-IsReceiving c.cur_message_type f body c h)),
    refused_or f c
        (λ (body : List ℕ).
          if is_none c.cur_message_type
          then end_message f (append_text f body (set_type text_message c))
          else refuse c)
        h (λ body. start_text-IsReceiving c.cur_message_type f body c h),
    refused_or f c
        (λ (body : List ℕ).
          if is_none c.cur_message_type
          then end_message f (append_binary f body (set_type binary_message c))
          else refuse c)
        h (λ body. start_binary-IsReceiving c.cur_message_type f body c h),
  )

  on_control_frame-IsReceiving :
      Receives (on_close_frame f c) × Receives (on_ping_frame f c) × Receives (on_pong_frame f c)
  unfolding on_close_frame on_ping_frame on_pong_frame
  on_control_frame-IsReceiving = (
    refused_or f c (λ (body : List ℕ). handled true c (on_close (append body new_message) ∷ [])) h
        (λ body. h),
    refused_or f c (λ (body : List ℕ). handled true c (on_ping new_message ∷ [])) h (λ body. h),
    refused_or f c (λ (body : List ℕ). handled true c (on_pong new_message ∷ [])) h (λ body. h),
  )

  pub on_parsed_frame-IsReceiving : IsReceiving (on_parsed_frame f c).codec.cur_message_type
  unfolding on_parsed_frame
  on_parsed_frame-IsReceiving =
      let (k, t, b) = on_message_frame-IsReceiving in
      let (q, i, o) = on_control_frame-IsReceiving in
      branch Receives (f.opcode == opcode_continuation) (on_continuation_frame f c) k (
        branch Receives (f.opcode == opcode_text) (on_text_frame f c) t (
          branch Receives (f.opcode == opcode_binary) (on_binary_frame f c) b (
            branch Receives (f.opcode == opcode_close) (on_close_frame f c) q (
              branch Receives (f.opcode == opcode_ping) (on_ping_frame f c) i
                (branch Receives (f.opcode == opcode_pong) (on_pong_frame f c) o h)))))
