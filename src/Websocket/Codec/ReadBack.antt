-- ===== src/Websocket/Codec/ReadBack.antt =====
-- `Parse` behind the first two bytes of a frame: the key and the body.
use woody.Shared.{
  ℕ, ◌+◌, ◌-◌, ◌^◌, ◌<◌, ◌≡◌, refl, ap, ◌∙◌, true, false, some, List, [], ◌++◌, length,
  length-append, take_append, drop_append, ◌==◌, if◌then◌else◌, arith, Bool-cases, inl, inr, le→ltb,
}
use woody.Base.Endian.{
  length-big_endian, host_to_network64, host_to_network32, host_to_network16, int32_of_network,
}
use woody.Websocket.Frame.{WebsocketFrame}
use woody.Websocket.Parser.{
  parsing_header_begin, parsing_body_begin, WebsocketParser, ParseResult, truth, frame_of, clean_up,
  on_parsing_complete, end_header, parse_masking_key,
}
use woody.Websocket.Parser.Body.{parse_body_done, zero-add64}
use woody.Websocket.Codec.Wire.{key_bytes}

-- The widths of the fields.
pub length-host64 : (x : ℕ) → length (host_to_network64 x) ≡ 8
unfolding host_to_network64
length-host64 x = length-big_endian 8 x

pub length-host32 : (x : ℕ) → length (host_to_network32 x) ≡ 4
unfolding host_to_network32
length-host32 x = length-big_endian 4 x

pub length-host16 : (x : ℕ) → length (host_to_network16 x) ≡ 2
unfolding host_to_network16
length-host16 x = length-big_endian 2 x

-- The result of a completed frame whose header the parser `p` holds.
abbrev pub completed : ℕ → List ℕ → WebsocketParser → ParseResult
completed n body p = record {
  success = true;
  parsed_bytes = n;
  parser = record p { body = []; state = parsing_header_begin };
  complete = some (frame_of (record p { body = body }));
}

-- A whole body behind the header.
pub end_header_whole :
    (header body rest : List ℕ) (p : WebsocketParser)
    → length (header ++ (body ++ rest)) < 2 ^ 64
    → p.body ≡ []
    → p.payload_length ≡ length body
    → end_header (header ++ (body ++ rest)) 0 (length header) p
      ≡ completed (length header + length body) body p
unfolding end_header on_parsing_complete clean_up
end_header_whole header body rest p fits empty len =
    rw (zero-add64 (length header) (omega (arith, length-append header (body ++ rest)))) (
      parse_body_done (header ++ (body ++ rest)) (length header)
        (record p { state = parsing_body_begin })
        (record {
          chunk_fits = fits;
          payload_fits =
              omega (arith, length-append header (body ++ rest), length-append body rest);
          parsed_within = omega (arith, length-append header (body ++ rest));
          body_within = omega (arith, ap length empty);
        })
        (omega (arith, length-append header (body ++ rest), length-append body rest))
      ∙ cc (
        need,
        drop_append header (body ++ rest) (length header) refl,
        take_append body rest (length body) refl,
        empty,
      ))
  where
    need : p.payload_length - length p.body ≡ length body
    need = omega (arith, ap length empty)

no_key :
    (bytes : List ℕ) (h : ℕ) (p : WebsocketParser)
    → (p.mask == 0) ≡ true
    → parse_masking_key bytes 0 h p ≡ end_header bytes 0 (h + 0) p
unfolding parse_masking_key
no_key bytes h p z =
    let n : h ≡ h + 0 = omega arith in rw z (ap (λ (k : ℕ). end_header bytes 0 k p) n)

-- The key's four bytes, or none, between the header so far and what follows.
module _ (tail : List ℕ) where
  masked_key :
      (header : List ℕ) (h key : ℕ) (p : WebsocketParser)
      → h ≡ length header
      → (p.mask == 0) ≡ false
      → key < 2 ^ 32
      → parse_masking_key (header ++ (host_to_network32 key ++ tail)) 0 h p
        ≡ end_header
            (header ++ (host_to_network32 key ++ tail))
            0
            (h + 4)
            (record p { masking_key = key })
  unfolding parse_masking_key
  masked_key header h key p e z k = rw z (
      rw
        (le→ltb (length (header ++ (host_to_network32 key ++ tail))) (h + 4) (
          omega (
            arith,
            length-append header (host_to_network32 key ++ tail),
            length-append (host_to_network32 key) tail,
            length-host32 key,
          )))
        (rw (drop_append header (host_to_network32 key ++ tail) h e)
          (rw (int32_of_network key tail k) refl)))

  pub parse_masking_key_lem :
      (f : WebsocketFrame) (header : List ℕ) (h : ℕ) (p : WebsocketParser)
      → h ≡ length header
      → p.mask ≡ f.mask
      → f.masking_key < 2 ^ 32
      → parse_masking_key (header ++ (key_bytes f ++ tail)) 0 h p
        ≡ end_header
            (header ++ (key_bytes f ++ tail))
            0
            (h + length (key_bytes f))
            (record p { masking_key = if truth f.mask then f.masking_key else p.masking_key })
  unfolding key_bytes
  parse_masking_key_lem f header h p e m key = elim (Bool-cases (f.mask == 0)) [
    | inl z ↦ rw z (no_key (header ++ tail) h p (rw m z))
    | inr z ↦
        rw z (masked_key header h f.masking_key p e (rw m z) key ∙ cc (length-host32 f.masking_key))
  ]
