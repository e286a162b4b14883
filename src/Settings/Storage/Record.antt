-- ===== src/Settings/Storage/Record.antt =====
-- Records survive their encoding.
use mathlib.Core.Path.{subst}
use bmw_e9x_remote_control.Common.{
  ℕ, ◌<◌, ◌≡◌, refl, sym, ap, ◌∙◌, true, ◌&&◌, some, List, ◌++◌, get_or, length, take, drop,
  length-append, take-append, ◌==◌, u32_mod, u64_mod, arith,
}
use bmw_e9x_remote_control.Settings.{UserSettings, valid, validate_user_settings}
use bmw_e9x_remote_control.Settings.Bytes.{write_u16, write_u32, read_u16, read_u32}
use bmw_e9x_remote_control.Settings.Bytes.Words.{join16-byte_at, join32-byte_at}
use bmw_e9x_remote_control.Settings.Bytes.Buffers.{
  AllBytes, write_u16-AllBytes, write_u32-AllBytes, read_u32-append,
}
use bmw_e9x_remote_control.Settings.Payload.{decode_user_settings_payload}
use bmw_e9x_remote_control.Settings.Payload.Laws.{decode-encode_user_settings}
use bmw_e9x_remote_control.Settings.Payload.Bytes.{payload_of-AllBytes, encode-payload_of}
use bmw_e9x_remote_control.Settings.Checksum.{crc32}
use bmw_e9x_remote_control.Settings.Checksum.Errors.{crc32-bound}
use bmw_e9x_remote_control.Settings.Storage.{
  DecodedRecord, record_body, record_of, record_of_payload, record_with, encode_record,
  decode_record,
}

abbrev pub stored : UserSettings → ℕ → DecodedRecord
stored s generation = record { settings = s; generation = generation; valid = true }

decode_record-known :
    (r : List ℕ)
    → (get_or r 0 0 == 66 && get_or r 1 0 == 77 && get_or r 2 0 == 82 && get_or r 3 0 == 67) ≡ true
    → read_u16 r 4 ≡ 1
    → read_u16 r 6 ≡ 40
    → read_u32 r 52 ≡ crc32 (take 52 r)
    → decode_record r
      ≡ record_with (decode_user_settings_payload (take 40 (drop 12 r)) 40) (read_u32 r 8)
unfolding decode_record
decode_record-known r magic version size sum =
    let test : (read_u32 r 52 == crc32 (take 52 r)) ≡ true = ground arith in
    rw (magic, version, size, test) refl

module _ (p : List ℕ) (generation : ℕ) (len : length p ≡ 40) (bytes : AllBytes p)
    (h : generation < u32_mod) where
  record_body-AllBytes : AllBytes (record_body p generation)
  record_body-AllBytes =
      let rest = write_u16-AllBytes 1 (write_u16 40 ++ write_u32 generation ++ p) (
        write_u16-AllBytes 40 (write_u32 generation ++ p)
          (write_u32-AllBytes generation p bytes)) in
      (omega arith, (omega arith, (omega arith, (omega arith, rest))))

  length-record_body : length (record_body p generation) ≡ 52
  length-record_body = omega arith

  decode_record-record_of :
      decode_record (record_of p generation)
      ≡ record_with (decode_user_settings_payload p 40) generation
  decode_record-record_of =
      let body = record_body p generation in
      let c = crc32 body in
      let sum =
        read_u32-append body (write_u32 c) 52 length-record_body
        ∙ join32-byte_at c (crc32-bound body record_body-AllBytes) in
      let before : take 52 (record_of p generation) ≡ body =
        ap (λ k. take k (record_of p generation)) (sym length-record_body)
        ∙ take-append body (write_u32 c) in
      let inside : take 40 (p ++ write_u32 c) ≡ p =
        ap (λ k. take k (p ++ write_u32 c)) (sym len) ∙ take-append p (write_u32 c) in
      decode_record-known (record_of p generation) refl (join16-byte_at 1 (omega arith))
        (join16-byte_at 40 (omega arith)) (sum ∙ ap crc32 (sym before))
      ∙ ap
          (λ q.
            record_with (decode_user_settings_payload q 40) (read_u32 (record_of p generation) 8))
          inside
      ∙ ap (record_with (decode_user_settings_payload p 40)) (join32-byte_at generation h)

-- Valid settings with a 64-bit feature mask are encoded in a record of 56 bytes, from which the decoder
-- gives back the settings and the generation.
pub decode-encode_record :
    (s : UserSettings) (generation : ℕ)
    → valid (validate_user_settings s) ≡ true
    → s.features.mask < u64_mod
    → generation < u32_mod
    → (r : List ℕ) × (encode_record s generation ≡ some r)
      × (length r ≡ 56)
      × (decode_record r ≡ stored s generation)
unfolding encode_record
decode-encode_record s generation ok hm hg =
    let (p, e, len, back) = decode-encode_user_settings s ok hm in
    let same = (encode-payload_of s p e).1 in
    let bytes = subst AllBytes same (payload_of-AllBytes s ok) in
    (
      record_of p generation,
      ap (λ o. record_of_payload o generation) e,
      omega (arith, length-append p (write_u32 (crc32 (record_body p generation)))),
      decode_record-record_of p generation len bytes hg ∙ ap (λ o. record_with o generation) back,
    )
