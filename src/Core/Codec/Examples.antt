-- ===== src/Core/Codec/Examples.antt =====
-- ramqp-core/src/codec/value.rs: the theorems on the codec at values like those of its tests.
use r_amqp.Common.{◌≡◌, refl, [], ◌∷◌, ◌++◌, false, arith}
use r_amqp.Core.Codec.Reading.{ok}
use r_amqp.Core.Codec.Value.{
  Value, bool, uint, ulong, string, symbol, list, map, array, described, Values, nil, cons, kind_of,
  shared, element, wide_body, has_ctor, Entries, end, entry, encode,
}
use r_amqp.Core.Codec.Utf8.{is_utf8}
use r_amqp.Core.Codec.Value.Decode.{decode}
use r_amqp.Core.Codec.Value.Encodable.{
  nested_code, IsEncodable, scalar, list_of, map_of, array_of, described_as, nothing, also,
  no_entry, and_entry,
}
use r_amqp.Core.Codec.Value.RoundTrip.{decode-encode}
use r_amqp.Core.Codec.Value.DescribedArray.{decode-described_array}

abbrev greetings : Entries
greetings = entry (symbol (0x68 ∷ 0x69 ∷ [])) (string (0xc3 ∷ 0xa9 ∷ [])) end

abbrev numbers : Values
numbers = cons (uint 0) (cons (uint 300) nil)

greetings-IsEncodable : IsEncodable 64 (map greetings)
unfolding encode is_utf8
greetings-IsEncodable =
    map_of (and_entry (scalar (omega arith, refl)) (scalar (omega arith, refl)) no_entry)
      (omega arith) (omega arith)

numbers-IsEncodable : IsEncodable 64 (array numbers)
unfolding encode kind_of nested_code shared element wide_body has_ctor
numbers-IsEncodable =
    array_of (also (scalar (omega arith)) (also (scalar (omega arith)) nothing)) (refl, refl, tt)
      (λ e. omega arith) (omega arith) (omega arith)

abbrev opened : Value
opened = described (ulong 0x24) (list nil)

opened-IsEncodable : IsEncodable 64 opened
unfolding encode
opened-IsEncodable =
    described_as (scalar (omega arith)) (list_of nothing (omega arith) (omega arith))

abbrev sample : Value
sample = list (cons (bool false) (cons (map greetings) (cons (array numbers) (cons opened nil))))

sample-IsEncodable : IsEncodable 65 sample
unfolding encode kind_of shared element wide_body has_ctor
sample-IsEncodable =
    list_of
      (also (scalar tt)
        (also greetings-IsEncodable (also numbers-IsEncodable (also opened-IsEncodable nothing))))
      (omega arith) (omega arith)

decode-encode_example : decode (encode sample ++ (0xff ∷ [])) ≡ ok (sample, 0xff ∷ [])
decode-encode_example = decode-encode sample (0xff ∷ []) sample-IsEncodable

decode-described_array_example :
    decode (
      encode (
        array (cons (described (ulong 0x24) (uint 0)) (cons (described (ulong 0x25) (uint 7)) nil)))
      ++ [])
    ≡ ok (
      array (cons (described (ulong 0x24) (uint 0)) (cons (described (ulong 0x24) (uint 0)) nil)),
      [],
    )
unfolding encode
decode-described_array_example =
    decode-described_array (ulong 0x24) (ulong 0x25) 7 [] (scalar (omega arith)) (omega arith)
      (omega arith) (omega arith)
