-- ===== src/Websocket/Frame/OneKeyByte.antt =====
-- The masking keys that woody/websocket/websocket_codec.cc would draw by `GetRandomByte`.
use woody.Shared.{ℕ, List, [], ◌∷◌}

abbrev pub four : ℕ → List ℕ
four b = b ∷ b ∷ b ∷ b ∷ []
