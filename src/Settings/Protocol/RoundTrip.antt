-- ===== src/Settings/Protocol/RoundTrip.antt =====
-- Frames survive their encoding.
use bmw_e9x_remote_control.Common.{
  ℕ, ◌+◌, ◌-◌, ◌≤◌, ◌<◌, ◌≡◌, refl, sym, ap, ◌∙◌, true, false, some, List, ◌++◌, get_or, length,
  take, replicate, length-take, length-append, take-append, ltb, arith,
}
use bmw_e9x_remote_control.Settings.Bytes.{write_u32, read_u16, read_u32}
use bmw_e9x_remote_control.Settings.Bytes.Words.{join16-byte_at, join32-byte_at}
use bmw_e9x_remote_control.Settings.Bytes.Buffers.{
  AllBytes, byte_at-bound, take-AllBytes, read_u32-append,
}
use bmw_e9x_remote_control.Settings.Checksum.{crc32}
use bmw_e9x_remote_control.Settings.Checksum.Errors.{crc32-bound}
use bmw_e9x_remote_control.Settings.Protocol.{
  SettingsProtocolFrame, SettingsFrameDecodeStatus, SettingsFrameDecodeResult, frame_body, encode,
  decode, accepted, has_magic,
}

-- The ranges of the fields' types, and the payload's size.
pub record IsFrame (f : SettingsProtocolFrame) : Type 0 where
  pub type_byte : f.type < 256
  pub status_byte : f.status < 256
  pub id_word : f.request_id < 65536
  pub size : f.payload_size ≤ 40
  pub whole : length f.payload ≡ 40
  pub bytes : AllBytes f.payload

frame_body-AllBytes : (f : SettingsProtocolFrame) → IsFrame f → AllBytes (frame_body f)
frame_body-AllBytes f h =
    let id = f.request_id in
    let n = f.payload_size in
    (
      omega arith,
      (
        omega arith,
        (
          omega arith,
          (
            omega arith,
            (
              omega arith,
              (
                h.type_byte,
                (
                  h.status_byte,
                  (
                    omega arith,
                    (
                      byte_at-bound id 1,
                      (
                        byte_at-bound id 256,
                        (
                          byte_at-bound n 1,
                          (byte_at-bound n 256, take-AllBytes n f.payload h.bytes),
                        ),
                      ),
                    ),
                  ),
                ),
              ),
            ),
          ),
        ),
      ),
    )

length-frame_body :
    (f : SettingsProtocolFrame) → IsFrame f → length (frame_body f) ≡ 12 + f.payload_size
length-frame_body f h =
    omega (arith, length-take f.payload_size f.payload (omega (arith, h.size, h.whole)))

-- What the decoder asks of bytes.
pub record IsAccepted (e : List ℕ) : Type 0 where
  pub magic : has_magic e ≡ true
  pub version : get_or e 4 0 ≡ 1
  pub reserved : get_or e 7 0 ≡ 0
  pub fits : read_u16 e 10 ≤ 40
  pub sized : 16 + read_u16 e 10 ≡ length e
  pub summed : read_u32 e (12 + read_u16 e 10) ≡ crc32 (take (12 + read_u16 e 10) e)

decode-IsAccepted : (e : List ℕ) → IsAccepted e → decode e ≡ accepted e
unfolding decode
decode-IsAccepted e h =
    let t1 = h.magic in ground (arith, h.version, h.reserved, h.fits, h.sized, h.summed)

-- Only such bytes are decoded.
pub IsAccepted-decode :
    (e : List ℕ) → (decode e).status ≡ SettingsFrameDecodeStatus.ok → IsAccepted e
unfolding decode
IsAccepted-decode e h = record {
  magic = ground arith;
  version = ground arith;
  reserved = ground arith;
  fits = ground arith;
  sized = ground arith;
  summed = ground arith;
}

-- The frame with its payload cleared from its size on.
abbrev pub cleared : SettingsProtocolFrame → SettingsProtocolFrame
cleared f = record f {
  payload = take f.payload_size f.payload ++ replicate (40 - f.payload_size) 0;
}

abbrev pub decoded_frame : SettingsProtocolFrame → SettingsFrameDecodeResult
decoded_frame f = record { status = SettingsFrameDecodeStatus.ok; frame = f }

-- What `encode` writes.
abbrev encoded : SettingsProtocolFrame → List ℕ
encoded f = frame_body f ++ write_u32 (crc32 (frame_body f))

encoded-IsAccepted : (f : SettingsProtocolFrame) → IsFrame f → IsAccepted (encoded f)
encoded-IsAccepted f h =
    let body = frame_body f in
    let n = f.payload_size in
    let c = crc32 body in
    let len = length-frame_body f h in
    let size = join16-byte_at n (omega (arith, h.size)) in
    let sum =
      read_u32-append body (write_u32 c) (12 + n) len
      ∙ join32-byte_at c (crc32-bound body (frame_body-AllBytes f h)) in
    let before : take (12 + n) (encoded f) ≡ body =
      ap (λ k. take k (encoded f)) (sym len) ∙ take-append body (write_u32 c) in
    record {
      magic = refl;
      version = refl;
      reserved = refl;
      fits = rw size h.size;
      sized = rw size (omega (arith, len, length-append body (write_u32 c)));
      summed = rw size (sum ∙ ap crc32 (sym before));
    }

accepted-encoded :
    (f : SettingsProtocolFrame) → IsFrame f → accepted (encoded f) ≡ decoded_frame (cleared f)
accepted-encoded f h =
    let n = f.payload_size in
    let c = write_u32 (crc32 (frame_body f)) in
    let id = join16-byte_at f.request_id h.id_word in
    let size = join16-byte_at n (omega (arith, h.size)) in
    let kept : take n (take n f.payload ++ c) ≡ take n f.payload =
      ap (λ k. take k (take n f.payload ++ c))
        (sym (length-take n f.payload (omega (arith, h.size, h.whole))))
      ∙ take-append (take n f.payload) c in
    rw (id, size, kept) refl

-- A frame is encoded, in 16 bytes and its payload, from which the decoder gives the frame back, with
-- its payload zero from the size on.
pub decode-encode :
    (f : SettingsProtocolFrame)
    → IsFrame f
    → (e : List ℕ) × (encode f ≡ some e)
      × (length e ≡ 16 + f.payload_size)
      × (decode e ≡ decoded_frame (cleared f))
unfolding encode
decode-encode f h =
    let fits : ltb 40 f.payload_size ≡ false = ground (arith, h.size) in
    (
      encoded f,
      rw fits refl,
      omega (
        arith,
        length-frame_body f h,
        length-append (frame_body f) (write_u32 (crc32 (frame_body f))),
      ),
      decode-IsAccepted (encoded f) (encoded-IsAccepted f h) ∙ accepted-encoded f h,
    )
