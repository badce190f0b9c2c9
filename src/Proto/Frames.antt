-- ===== src/Proto/Frames.antt =====
-- A frame that is encoded is decoded to the same value; the header is checked first.
use os_agent.Base.{
  ℕ, ◌+◌, ◌-◌, ◌≤◌, ◌≡◌, refl, ap, ◌∙◌, false, some, List, ◌++◌, length, drop, ltb, arith,
  length-append, take-drop-length,
}
use os_agent.Base.Bytes.{to_le_bytes, from_le_bytes}
use os_agent.Proto.{
  frame_header_size, frame_header, body_at, check_frame_header, Codec, encoded, decoded,
  encode_frame, decode_body, decode_frame,
}

check-frame_header : (rest : List ℕ) → check_frame_header (frame_header ++ rest) ≡ body_at 6
unfolding check_frame_header frame_header to_le_bytes from_le_bytes
check-frame_header rest =
    let long_enough : ltb (length (frame_header ++ rest)) 6 ≡ false = ground arith in
    rw (long_enough, check_frame_header) refl

drop-frame_header : (rest : List ℕ) → drop 6 (frame_header ++ rest) ≡ rest
unfolding frame_header to_le_bytes
drop-frame_header rest = refl

length-frame_header : length frame_header ≡ 6
unfolding frame_header to_le_bytes
length-frame_header = refl

module _ {A : Type 0} (codec : Codec A)
    (codec_law : (a : A) (rest : List ℕ) → codec.decode (codec.encode a ++ rest) ≡ some a) where
  decode_checked :
      (buf : List ℕ) (at : ℕ)
      → check_frame_header buf ≡ body_at at
      → decode_frame codec buf ≡ decode_body codec (codec.decode (drop at buf))
  unfolding decode_frame
  decode_checked buf at e = rw (e, decode_frame) refl

  -- Where the codec reads back what it writes, whatever follows, a value that fits in the buffer is
  -- encoded, the frame is as long as the call says, and the buffer decodes to the value.
  pub decode-encode :
      (a : A) (out : List ℕ)
      → frame_header_size + length (codec.encode a) ≤ length out
      → (n : ℕ) × (out' : List ℕ) × (encode_frame codec a out ≡ encoded n out')
        × (n ≡ frame_header_size + length (codec.encode a))
        × (length out' ≡ length out)
        × (decode_frame codec out' ≡ decoded a)
  unfolding encode_frame decode_frame decode_body
  decode-encode a out fits =
      let body = codec.encode a in
      let n = frame_header_size + length body in
      let out' = frame_header ++ (body ++ drop n out) in
      let room : ltb (length out) frame_header_size ≡ false = ground (arith, fits) in
      let room' : ltb (length out - frame_header_size) (length body) ≡ false =
        ground (arith, fits) in
      (
        n,
        out',
        rw (room, room') refl,
        refl,
        omega (
          arith,
          length-append frame_header (body ++ drop n out),
          length-append body (drop n out),
          length-frame_header,
          take-drop-length n out fits,
        ),
        decode_checked out' 6 (check-frame_header (body ++ drop n out))
            ∙ ap (λ (b : List ℕ). decode_body codec (codec.decode b))
                (drop-frame_header (body ++ drop n out))
            ∙ ap (decode_body codec) (codec_law a (drop n out)),
      )
