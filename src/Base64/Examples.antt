-- ===== src/Base64/Examples.antt =====
-- Tests of base64.c, and the theorems at concrete data.
use iot_eclipse.Base.{◌+◌, ◌≤◌, ◌≡◌, refl, true, none, some, arith, length, ltb}
use iot_eclipse.Base.Bytes.{Bytes, codes}
use iot_eclipse.Code.{ok, bad_content_encoding}
use iot_eclipse.Memory.{Memory}
use iot_eclipse.StringType.{StringT}
use iot_eclipse.Base64.{
  encode_loop, output_size, base64_encode_table, base64_encode, base64_url_encode, base64_decode,
  base64_url_decode, encode_with_table,
}
use iot_eclipse.Base64.Encode.{output_fits}
use iot_eclipse.Base64.RoundTrip.{base64_decode-encode, base64_url_decode-encode, encode_lost}

abbrev plenty : Memory
plenty = record { answers = λ _. true; junk = λ _. 0; asked = 0; live = 5 }

-- One request is granted.
abbrev scarce : Memory
scarce = record { answers = λ k. ltb k 1; junk = λ _. 0; asked = 0; live = 5 }

encode_test : encode_loop base64_encode_table (codes "Mind") ≡ codes "TWluZA=="
unfolding encode_loop
encode_test = refl

early_padding_test : (base64_decode (codes "TW=uZA==") 8 plenty).0 ≡ (bad_content_encoding, none, 0)
unfolding base64_decode
early_padding_test = refl

base64_decode-encode_example :
    (p : Bytes) × (s : StringT) × ((base64_encode (codes "Mind") plenty).0 ≡ (ok, some s))
    × (s.buffer ≡ some p)
    × ((base64_decode p s.length plenty).0 ≡ (ok, some (codes "Mind"), 4))
base64_decode-encode_example =
    base64_decode-encode (codes "Mind") plenty plenty (omega arith) (omega arith) (omega arith)
      (λ k. refl) (λ k. refl)

base64_url_decode-encode_test :
    (p : Bytes) × (s : StringT) × ((base64_url_encode (codes "Mind") plenty).0 ≡ (ok, some s))
    × (s.buffer ≡ some p)
    × ((base64_url_decode p s.length plenty).0 ≡ (ok, some (codes "Mind"), 4))
base64_url_decode-encode_test =
    base64_url_decode-encode (codes "Mind") plenty plenty (omega arith) (omega arith) (omega arith)
      (λ k. refl) (λ k. refl)

output_fits_test : length (encode_loop base64_encode_table (codes "Mind")) + 1 ≤ output_size 4
output_fits_test = output_fits base64_encode_table (codes "Mind") (omega arith)

encode_lost_example :
    let (r, m') = encode_with_table base64_encode_table (codes "Mind") scarce in
    (r ≡ (ok, none)) × (m'.live ≡ 6)
encode_lost_example = encode_lost base64_encode_table (codes "Mind") scarce refl refl
