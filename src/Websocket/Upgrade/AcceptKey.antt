-- ===== src/Websocket/Upgrade/AcceptKey.antt =====
-- The header `Sec-WebSocket-Accept` of an accepted handshake.
use woody.Shared.{ℕ, ◌*◌, ◌≡◌, List, [], ◌∷◌, ◌++◌, length, All, arith, Option}
use woody.Base.Endian.{IsByte}
use woody.Base.StringMap.{Bytes}
use woody.Bytree.Base64.{reverse_bytes, words, sha1}
use woody.Bytree.Base64.Size.{IsBase64, length-base64_encode, base64_encode-IsBase64}
use woody.Websocket.Upgrade.{guid, accept_of}

words-IsByte : (xs : List ℕ) → All IsByte (words xs)
unfolding words reverse_bytes
words-IsByte [] = tt
words-IsByte (x ∷ xs) = (omega arith, (omega arith, (omega arith, (omega arith, words-IsByte xs))))

length-words : (xs : List ℕ) → length (words xs) ≡ 4 * length xs
unfolding words reverse_bytes
length-words [] = omega arith
length-words (x ∷ xs) = omega (arith, length-words xs)

module _ (get_digest : Bytes → List ℕ) (int_to_string : ℕ → Bytes)
    (string_to_int : Bytes → Option ℕ) (split : Bytes → Bytes → List Bytes) where
  -- Whatever the key that the client sent, if the digest of it and the GUID has five words: the
  -- accept key has 28 characters, each of the Base64 alphabet or the filler.
  pub accept_of-IsBase64 :
      (key : Bytes)
      → length (get_digest (key ++ guid)) ≡ 5
      → (length (accept_of get_digest int_to_string string_to_int split key) ≡ 28)
        × All IsBase64 (accept_of get_digest int_to_string string_to_int split key)
  unfolding sha1
  accept_of-IsBase64 key five =
      let digest = get_digest (key ++ guid) in
      (
        omega (
          arith,
          length-base64_encode (words digest) (omega (arith, length-words digest, five)),
          length-words digest,
          five,
        ),
        base64_encode-IsBase64 (words digest) (words-IsByte digest),
      )
