-- ===== src/Proto/Tests.antt =====
-- The frames at concrete inputs, with a codec of one byte.
use os_agent.Base.{ℕ, ◌+◌, ◌≡◌, refl, Option, none, some, List, [], ◌∷◌, length, replicate, arith}
use os_agent.Base.Bytes.{from_le_bytes}
use os_agent.Proto.{
  Codec, encoded, decoded, bad_frame, bad_magic, check_frame_header, frame_header_size,
  encode_frame, decode_frame,
}
use os_agent.Proto.Frames.{decode-encode}

abbrev first_byte : List ℕ → Option ℕ
first_byte [] = none
first_byte (b ∷ bs) = some b

abbrev byte_codec : Codec ℕ
byte_codec = record { encode = λ b. b ∷ []; decode = first_byte }

zeros_are_refused : check_frame_header (replicate 8 0) ≡ bad_frame bad_magic
unfolding check_frame_header from_le_bytes
zeros_are_refused = refl

decode-encode_example :
    (n : ℕ) × (out' : List ℕ) × (encode_frame byte_codec 7 (replicate 9 0) ≡ encoded n out')
    × (n ≡ frame_header_size + 1)
    × (length out' ≡ 9)
    × (decode_frame byte_codec out' ≡ decoded 7)
decode-encode_example = decode-encode byte_codec (λ a rest. refl) 7 (replicate 9 0) (omega arith)
