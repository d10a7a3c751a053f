-- ===== src/Websocket/Frame.antt =====
-- woody/websocket/websocket_frame.h and websocket_frame.cc. The `int` fields hold numbers that
-- are never negative.
pub mod Masking
pub mod OneKeyByte
use woody.Shared.{ℕ, ◌+◌, ◌%◌, List, [], ◌∷◌, get_or, bit_xor}
use woody.Base.Endian.{host_to_network32}

abbrev pub opcode_continuation : ℕ
opcode_continuation = 0x0

abbrev pub opcode_text : ℕ
opcode_text = 0x1

abbrev pub opcode_binary : ℕ
opcode_binary = 0x2

abbrev pub opcode_close : ℕ
opcode_close = 0x8

abbrev pub opcode_ping : ℕ
opcode_ping = 0x9

abbrev pub opcode_pong : ℕ
opcode_pong = 0xa

pub record WebsocketFrame : Type 0 where
  pub fin : ℕ
  pub rsv1 : ℕ
  pub rsv2 : ℕ
  pub rsv3 : ℕ
  pub opcode : ℕ
  pub mask : ℕ
  pub payload_length : ℕ
  pub masking_key : ℕ
  pub body : List ℕ

-- The `for` loop at index `i`, over the bytes that are left.
unfoldable pub mask_loop : List ℕ → ℕ → List ℕ → List ℕ
mask_loop keys i [] = []
mask_loop keys i (b ∷ bs) = bit_xor b (get_or keys (i % 4) 0) ∷ mask_loop keys (i + 1) bs

unfoldable pub mask : List ℕ → ℕ → List ℕ
unfolding mask_loop
mask bytes masking_key = mask_loop (host_to_network32 masking_key) 0 bytes

unfoldable pub un_mask : List ℕ → ℕ → List ℕ
unfolding mask
un_mask bytes masking_key = mask bytes masking_key
