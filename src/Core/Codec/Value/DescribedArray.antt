-- ===== src/Core/Codec/Value/DescribedArray.antt =====
-- ramqp-core/src/codec/value.rs: what an array of described values loses.
use r_amqp.Common.{
  ℕ, ◌+◌, ◌<◌, ◌≡◌, arith, ap, ◌∙◌, [], ◌∷◌, ◌++◌, append_assoc, length, length-append,
}
use r_amqp.Core.Performatives.{Bytes}
use r_amqp.Core.Codec.Reading.{>>=-ok, ◌>>=◌, ok, read_u8}
use r_amqp.Core.Codec.Primitives.{encode_uint, compound, read_compound32}
use r_amqp.Core.Codec.Value.{Value, uint, array, described, nil, cons, encode, elements, kind_of}
use r_amqp.Core.Codec.Value.Encodable.{Fits32}
use r_amqp.Core.Codec.Value.Decode.{
  max_depth, decode, is_zero_width, decode_value, decode_body, decode_n, within, decode_array,
  decode_elements,
}
use r_amqp.Core.Codec.Value.{element, shared, opening, inner}
use r_amqp.Core.Codec.Value.Decode.{array_count_ok}
use r_amqp.Core.Codec.Value.Encodable.{IsEncodable}
use r_amqp.Core.Codec.Value.RoundTrip.{value-decode, within-append}

encode-small_uint : (n : ℕ) → 0 < n → n < 256 → encode (uint n) ≡ 0x52 ∷ n ∷ []
unfolding encode encode_uint
encode-small_uint n low high = ground arith

-- Of the second value only the byte of its uint is written.
described_array-bytes :
    (d e : Value) (n : ℕ)
    → 0 < n
    → n < 256
    → encode (array (cons (described d (uint 0)) (cons (described e (uint n)) nil)))
      ≡ compound 0xf0 (0x00 ∷ (encode d ++ (0x43 ∷ n ∷ []))) 2
unfolding encode elements inner opening element shared kind_of encode_uint
described_array-bytes d e n low high =
    rw (encode-small_uint n low high)
      (ap (λ b. compound 0xf0 (0x00 ∷ b) 2) (append_assoc (encode d) (0x43 ∷ []) (n ∷ [])))

-- An array of two described values, the first of the uint 0 and the second of another uint below 256,
-- is decoded as the first value twice, whatever the second descriptor is. The first descriptor is one
-- that can be encoded on the levels that the decoder allows, and with the seven bytes of the array
-- around it has a length of 32 bits.
pub decode-described_array :
    (d e : Value) (n : ℕ) (rest : Bytes)
    → IsEncodable max_depth d
    → 0 < n
    → n < 256
    → Fits32 (length (encode d) + 7)
    → decode
        (encode (array (cons (described d (uint 0)) (cons (described e (uint n)) nil))) ++ rest)
      ≡ ok (array (cons (described d (uint 0)) (cons (described d (uint 0)) nil)), rest)
unfolding decode decode_value decode_body decode_array decode_elements decode_n array_count_ok
    is_zero_width read_u8 compound
decode-described_array d e n rest h low high f =
    let content : Bytes = 0x00 ∷ (encode d ++ (0x43 ∷ n ∷ [])) in
    ap (λ b. decode (b ++ rest)) (described_array-bytes d e n low high)
    ∙ >>=-ok (within read_compound32 (decode_array (decode_body max_depth))) _ _ (
        within-append (decode_array (decode_body max_depth)) content rest 2
          (rw (length-append (encode d) (0x43 ∷ n ∷ [])) (omega arith)) (omega arith)
          (>>=-ok (decode_value max_depth)
            (λ x. read_u8 >>= decode_elements (described x) (decode_body max_depth) 2)
            (encode d ++ (0x43 ∷ n ∷ [])) (value-decode h (0x43 ∷ n ∷ []))))
