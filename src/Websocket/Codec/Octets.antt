-- ===== src/Websocket/Codec/Octets.antt =====
-- What `ConvertFrameToString` writes: bytes, and how many.
use woody.Shared.{
  ℕ, ◌+◌, ◌≡◌, inl, inr, List, [], ◌∷◌, ◌++◌, length, take, drop, get_or, All, All-append, All-take,
  arith, leb, Bool-cases, if◌then◌else◌,
}
use woody.Base.Endian.{
  IsByte, big_endian, big_endian-IsByte, All-drop, host_to_network16, host_to_network32,
  host_to_network64,
}
use woody.Websocket.Frame.{WebsocketFrame}
use woody.Websocket.Parser.{truth}
use woody.Websocket.Codec.Send.{or_u8, first_byte, second_byte, end_frame, convert_frame_to_string}
use woody.Websocket.Codec.Wire.{extended, key_bytes, wire_header, wire, sent_form, sent_wire}

or_u8-IsByte : (b x : ℕ) → IsByte (or_u8 b x)
or_u8-IsByte b x = omega arith

end_frame-IsByte :
    (f : WebsocketFrame) (s : List ℕ)
    → All IsByte f.body
    → All IsByte s
    → All IsByte (end_frame f s)
unfolding end_frame host_to_network32
end_frame-IsByte f s h k = elim (Bool-cases (truth f.mask)) [
  | inl e ↦ rw e (
      All-append IsByte (s ++ big_endian 4 f.masking_key) f.body
        (All-append IsByte s (big_endian 4 f.masking_key) k (big_endian-IsByte 4 f.masking_key)) h)
  | inr e ↦ rw e (All-append IsByte s f.body k h)
]

All-snoc : (s : List ℕ) (x : ℕ) → All IsByte s → IsByte x → All IsByte (s ++ (x ∷ []))
All-snoc s x h i = All-append IsByte s (x ∷ []) h (i, tt)

-- The three forms of the length, behind the first byte.
module _ (f : WebsocketFrame) (s : List ℕ) (body : All IsByte f.body) (k : All IsByte s) where
  short-IsByte : (x : ℕ) → All IsByte (end_frame f (s ++ (second_byte f x ∷ [])))
  unfolding second_byte
  short-IsByte x =
      end_frame-IsByte f (s ++ (second_byte f x ∷ [])) body
        (All-snoc s (second_byte f x) k (or_u8-IsByte _ x))

  long-IsByte :
      (x : ℕ) (t : List ℕ)
      → All IsByte t
      → All IsByte (end_frame f ((s ++ (second_byte f x ∷ [])) ++ t))
  unfolding second_byte
  long-IsByte x t h = end_frame-IsByte f ((s ++ (second_byte f x ∷ [])) ++ t) body (
      All-append IsByte (s ++ (second_byte f x ∷ [])) t
        (All-snoc s (second_byte f x) k (or_u8-IsByte _ x)) h)

-- Whatever the frame, its fields and its payload length: if its body and the string are bytes, then
-- `ConvertFrameToString` leaves bytes in the string, on every branch, also where it fails.
pub convert_frame_to_string-IsByte :
    (f : WebsocketFrame) (s : List ℕ)
    → All IsByte f.body
    → All IsByte s
    → All IsByte (convert_frame_to_string f s).parsed_string
unfolding convert_frame_to_string first_byte host_to_network64
convert_frame_to_string-IsByte f s body k =
    let n = big_endian 8 f.payload_length in
    let bytes = big_endian-IsByte 8 f.payload_length in
    let begun = All-snoc s (first_byte f) k (or_u8-IsByte _ f.opcode) in
    let t = s ++ (first_byte f ∷ []) in
    elim (Bool-cases (leb f.payload_length 125)) [
      | inl e ↦ rw e (short-IsByte f t body begun (get_or n 7 0))
      | inr e ↦ rw e (elim (Bool-cases (leb f.payload_length 255)) [
        | inl e' ↦ rw e' (
            long-IsByte f t body begun 126 (take 2 (drop 6 n))
              (All-take IsByte 2 (drop 6 n) (All-drop 6 n bytes)))
        | inr e' ↦ rw e' (elim (Bool-cases (leb f.payload_length 0xffff_ffff)) [
          | inl e2 ↦ rw e2 (long-IsByte f t body begun 127 (take 8 n) (All-take IsByte 8 n bytes))
          | inr e2 ↦ rw e2 begun
        ])
      ])
    ]

-- The bytes in front of a payload, in a frame without a key.
abbrev pub header_size : ℕ → ℕ
header_size n = if leb n 125 then 2 else if leb n 255 then 4 else 10

pub length-wire_unmasked :
    (f : WebsocketFrame)
    → f.mask ≡ 0
    → length (sent_wire f) ≡ header_size f.payload_length + length f.body
unfolding wire wire_header sent_form extended key_bytes host_to_network16 host_to_network64
    big_endian
length-wire_unmasked f e = rw e (elim (Bool-cases (leb f.payload_length 125)) [
  | inl h ↦ rw h omega arith
  | inr h ↦ rw h (elim (Bool-cases (leb f.payload_length 255)) [
    | inl h' ↦ rw h' omega arith
    | inr h' ↦ rw h' omega arith
  ])
])
