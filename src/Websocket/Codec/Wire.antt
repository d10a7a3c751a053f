-- ===== src/Websocket/Codec/Wire.antt =====
-- A frame on the wire, in plain arithmetic: two bytes, the extended length, the key if there is
-- one, and the body. RFC 6455 lets the length stand in the second byte, in two bytes or in eight;
-- a client takes any of them that the length fits. `ConvertFrameToString` takes two bytes up to 255
-- alone (`sent_form`).
use woody.Shared.{
  ℕ, ◌+◌, ◌*◌, ◌/◌, ◌%◌, ◌^◌, ◌≤◌, ◌<◌, ◌≡◌, refl, ap, ◌⊎◌, true, List, [], ◌∷◌, ◌++◌, append_assoc,
  length, take, drop, get_or, leb, ◌==◌, ==_iff, if◌then◌else◌, arith, Bool-cases, inl, inr, le→leb,
  leb→le,
}
use woody.Shared.Bits.{every_below, entry_below}
use woody.Base.Endian.{host_to_network64, host_to_network32, host_to_network16}
use woody.Websocket.Frame.{WebsocketFrame}
use woody.Websocket.Parser.{truth}
use woody.Websocket.Codec.Send.{
  converted, or_u8, first_byte, second_byte, end_frame, convert_frame_to_string,
}

-- The opcodes that the protocol defines.
abbrev pub IsOpcode : ℕ → Type 0
IsOpcode o = (o ≤ 2) ⊎ ((8 ≤ o) × (o ≤ 10))

-- A frame whose fields fit the wire format: no extension bits, a defined opcode, no fragmented
-- control frame, and a length field that is the body's length.
pub record IsSendable (f : WebsocketFrame) : Type 0 where
  pub fin_bit : f.fin ≤ 1
  pub no_rsv1 : f.rsv1 ≡ 0
  pub no_rsv2 : f.rsv2 ≡ 0
  pub no_rsv3 : f.rsv3 ≡ 0
  pub is_opcode : IsOpcode f.opcode
  pub whole_control : 8 ≤ f.opcode → f.fin ≡ 1
  pub mask_bit : f.mask ≤ 1
  pub key_fits : f.masking_key < 2 ^ 32
  pub is_length : f.payload_length ≡ length f.body
  pub length_fits : length f.body ≤ 0xffff_ffff

-- Where a frame has its payload length, and the lengths that fit there.
pub data LengthForm : Type 0 where
  in_second_byte : LengthForm
  in_two_bytes : LengthForm
  in_eight_bytes : LengthForm

abbrev pub Fits : LengthForm → ℕ → Type 0
Fits in_second_byte n = n ≤ 125
Fits in_two_bytes n = n < 2 ^ 16
Fits in_eight_bytes n = n < 2 ^ 64

-- The form that `ConvertFrameToString` takes.
unfoldable pub sent_form : ℕ → LengthForm
sent_form n =
    if leb n 125 then in_second_byte else if leb n 255 then in_two_bytes else in_eight_bytes

pub sent_form-Fits : (n : ℕ) → n ≤ 0xffff_ffff → Fits (sent_form n) n
unfolding sent_form
sent_form-Fits n h = elim (Bool-cases (leb n 125)) [
  | inl e ↦ rw e (leb→le _ _ e)
  | inr e ↦ rw e (elim (Bool-cases (leb n 255)) [
    | inl e' ↦ rw e' (omega (arith, leb→le _ _ e'))
    | inr e' ↦ rw e' (omega arith)
  ])
]

-- The extended length behind the second byte, and the number in its low seven bits.
unfoldable pub extended : LengthForm → ℕ → List ℕ
extended in_second_byte n = []
extended in_two_bytes n = host_to_network16 n
extended in_eight_bytes n = host_to_network64 n

unfoldable pub short_length : LengthForm → ℕ → ℕ
short_length in_second_byte n = n
short_length in_two_bytes n = 126
short_length in_eight_bytes n = 127

unfoldable pub key_bytes : WebsocketFrame → List ℕ
key_bytes f = if truth f.mask then host_to_network32 f.masking_key else []

unfoldable pub wire_header : LengthForm → WebsocketFrame → List ℕ
wire_header form f =
    (f.fin * 128 + f.opcode)
    ∷ (f.mask * 128 + short_length form f.payload_length)
    ∷ (extended form f.payload_length ++ key_bytes f)

unfoldable pub wire : LengthForm → WebsocketFrame → List ℕ
wire form f = wire_header form f ++ f.body

-- The wire form that the server writes.
abbrev pub sent_wire : WebsocketFrame → List ℕ
sent_wire f = wire (sent_form f.payload_length) f

first_byte_table :
    every_below 32 (λ x.
      or_u8
        (or_u8 (or_u8 (or_u8 (or_u8 0 (x / 16 * 2 ^ 7)) (0 * 2 ^ 6)) (0 * 2 ^ 5)) (0 * 2 ^ 4))
        (x % 16)
      == x / 16 * 128 + x % 16)
    ≡ true
unfolding every_below
first_byte_table = refl

first_byte_fields :
    (fin opcode : ℕ)
    → fin ≤ 1
    → opcode < 16
    → or_u8
        (or_u8 (or_u8 (or_u8 (or_u8 0 (fin * 2 ^ 7)) (0 * 2 ^ 6)) (0 * 2 ^ 5)) (0 * 2 ^ 4))
        opcode
      ≡ fin * 128 + opcode
first_byte_fields fin opcode h k =
    let q : (fin * 16 + opcode) / 16 ≡ fin = omega arith in
    let r : (fin * 16 + opcode) % 16 ≡ opcode = omega arith in
    rw (q, r) at
      ((==_iff _ _).0 (entry_below 32 _ (fin * 16 + opcode) first_byte_table (omega arith)))

second_byte_table :
    every_below 256 (λ x. or_u8 (or_u8 0 (x / 128 * 2 ^ 7)) (x % 128) == x / 128 * 128 + x % 128)
    ≡ true
unfolding every_below
second_byte_table = refl

pub second_byte_lem :
    (f : WebsocketFrame) (x : ℕ) → f.mask ≤ 1 → x < 128 → second_byte f x ≡ f.mask * 128 + x
unfolding second_byte
second_byte_lem f x h k =
    let q : (f.mask * 128 + x) / 128 ≡ f.mask = omega arith in
    let r : (f.mask * 128 + x) % 128 ≡ x = omega arith in
    rw (q, r) at
      ((==_iff _ _).0 (entry_below 256 _ (f.mask * 128 + x) second_byte_table (omega arith)))

pub first_byte_lem : (f : WebsocketFrame) → IsSendable f → first_byte f ≡ f.fin * 128 + f.opcode
unfolding first_byte
first_byte_lem f s =
    rw (s.no_rsv1, s.no_rsv2, s.no_rsv3)
      (first_byte_fields f.fin f.opcode s.fin_bit (omega (arith, s.is_opcode)))

end_frame_lem : (f : WebsocketFrame) (s : List ℕ) → end_frame f s ≡ s ++ (key_bytes f ++ f.body)
unfolding end_frame key_bytes
end_frame_lem f s = elim (Bool-cases (truth f.mask)) [
  | inl e ↦ rw e (append_assoc s (host_to_network32 f.masking_key) f.body)
  | inr e ↦ rw e refl
]

low_byte : (n : ℕ) → n ≤ 125 → get_or (host_to_network64 n) 7 0 ≡ n
unfolding host_to_network64
low_byte n h = omega arith

low_two_bytes : (n : ℕ) → take 2 (drop 6 (host_to_network64 n)) ≡ host_to_network16 n
unfolding host_to_network64 host_to_network16
low_two_bytes n = refl

all_eight_bytes : (n : ℕ) → take 8 (host_to_network64 n) ≡ host_to_network64 n
unfolding host_to_network64
all_eight_bytes n = refl

-- The string that one branch builds, joined as `wire` joins it.
joined :
    (f : WebsocketFrame) (s ext : List ℕ) (x y : ℕ)
    → end_frame f (((s ++ (x ∷ [])) ++ (y ∷ [])) ++ ext)
      ≡ s ++ ((x ∷ y ∷ (ext ++ key_bytes f)) ++ f.body)
joined f s ext x y = rw end_frame_lem (simp append_assoc)

joined_short :
    (f : WebsocketFrame) (s : List ℕ) (x y : ℕ)
    → end_frame f ((s ++ (x ∷ [])) ++ (y ∷ [])) ≡ s ++ ((x ∷ y ∷ key_bytes f) ++ f.body)
joined_short f s x y = rw end_frame_lem (simp append_assoc)

-- On a frame that fits the wire format `ConvertFrameToString` succeeds, calls no error callback
-- and appends the frame's wire form, with the server's length form, to the string.
pub convert_frame_to_string_lem :
    (f : WebsocketFrame) (s : List ℕ)
    → IsSendable f
    → convert_frame_to_string f s ≡ converted (s ++ sent_wire f)
unfolding convert_frame_to_string wire wire_header extended short_length sent_form
convert_frame_to_string_lem f s h = elim (Bool-cases (leb f.payload_length 125)) [
  | inl e ↦ rw e (
      rw
        (
          low_byte _ (leb→le _ _ e),
          second_byte_lem f f.payload_length h.mask_bit (omega (arith, leb→le _ _ e)),
          first_byte_lem f h,
        )
        (ap converted (joined_short f s _ _)))
  | inr e ↦ rw e (elim (Bool-cases (leb f.payload_length 255)) [
    | inl e' ↦ rw e' (
        rw (low_two_bytes, second_byte_lem f 126 h.mask_bit (omega arith), first_byte_lem f h)
          (ap converted (joined f s _ _ _)))
    | inr e' ↦ rw e' (
        rw (le→leb f.payload_length 0xffff_ffff (omega (arith, h.is_length, h.length_fits))) (
          rw (all_eight_bytes, second_byte_lem f 127 h.mask_bit (omega arith), first_byte_lem f h)
            (ap converted (joined f s _ _ _))))
  ])
]
