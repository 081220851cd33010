-- ===== src/Core/Codec/Value/RoundTrip.antt =====
-- ramqp-core/src/codec/value.rs: decoding takes back what encoding wrote.
use r_amqp.Common.{
  ◌/◌, ◌%◌, append-nil, subst, ◌≢◌, ℕ, suc, ◌+◌, ◌*◌, ◌≡◌, refl, arith, ap, ◌∙◌, [], ◌∷◌, ◌++◌,
  append_assoc, length, be_bytes,
}
use r_amqp.Core.Performatives.{Bytes}
use r_amqp.Core.Codec.Reading.{
  >>=-ok, Reader, ◌>>=◌, ok, read_u8, read_be, read_bytes, read_bytes-append, read_be4-append,
}
use r_amqp.Core.Codec.Primitives.{read_count, read_var32, read_compound32}
use r_amqp.Core.Codec.Value.{
  Value, described, Values, nil, cons, Entries, end, entry, encode, encode_values, encode_entries,
  elements, count, map_count, Kind, kind_of,
}
use r_amqp.Core.Codec.Value.Encodable.{Fits32}
use r_amqp.Core.Codec.Value.Decode.{
  max_depth, decode, is_zero_width, contents, decode_value, decode_body, decode_n, decode_map,
  decode_pairs, within, decode_array, decode_elements,
}
use r_amqp.Core.Codec.Value.{under_descriptor, element, shared, opening, inner}
use r_amqp.Core.Codec.Value.Decode.{◌<$>◌, array_count_ok}
use r_amqp.Core.Codec.Value.Encodable.{
  IsEncodable, scalar, list_of, map_of, empty_array, array_of, described_as, nested_code, AllAlike,
  IsCounted, AllEncodable, nothing, also,
}
use r_amqp.Core.Codec.Value.Encodable.{AllEntries, no_entry, and_entry}
use r_amqp.Core.Codec.Value.Arrays.{element-read, decode_array-elements}
use r_amqp.Core.Codec.Value.Bodies.{code}
use r_amqp.Core.Codec.Value.Scalars.{scalar-decode}

read_all :
    {A : Type 0} (r : Reader A) (b : Bytes) {a : A} → r (b ++ []) ≡ ok (a, []) → r b ≡ ok (a, [])
read_all r b {a} e = subst (λ x. r x ≡ ok (a, [])) (append-nil b) e

read_count-append :
    (n : ℕ) (content rest : Bytes)
    → Fits32 n
    → read_count 4 (be_bytes 4 n ++ content) rest ≡ ok ((n, content), rest)
unfolding read_count
read_count-append n content rest c = rw (read_be4-append n content c, read_count) refl

contents-ok :
    {A : Type 0} (read : ℕ → Reader A) (n : ℕ) (content rest : Bytes) {a : A} {left : Bytes}
    → read n content ≡ ok (a, left)
    → contents read (n, content) rest ≡ ok (a, rest)
unfolding contents
contents-ok read n content rest e = rw (e, contents) refl

-- A compound that is read, with what follows it left.
pub within-append :
    {A : Type 0} (read : ℕ → Reader A) (content rest : Bytes) (n : ℕ) {a : A} {left : Bytes}
    → Fits32 (length content + 4)
    → Fits32 n
    → read n content ≡ ok (a, left)
    → within read_compound32 read
        (be_bytes 4 (length content + 4) ++ (be_bytes 4 n ++ (content ++ rest)))
      ≡ ok (a, rest)
unfolding within read_compound32 read_var32
within-append read content rest n f c e =
    >>=-ok read_compound32 (contents read) _ (
      >>=-ok read_var32 (read_count 4) _ (
        >>=-ok (read_be 4) read_bytes _
          (read_be4-append (length content + 4) (be_bytes 4 n ++ (content ++ rest)) f)
        ∙ read_bytes-append (length content + 4) (be_bytes 4 n ++ content) rest (omega arith))
      ∙ read_count-append n content rest c)
    ∙ contents-ok read n content rest e

abbrev pairs : Entries → ℕ
pairs end = 0
pairs (entry k v m) = suc (pairs m)

map_count-pairs : (m : Entries) → map_count m ≡ pairs m * 2
map_count-pairs end = refl
map_count-pairs (entry k v m) = let e : map_count m ≡ pairs m * 2 = map_count-pairs m in omega arith

decode_map-pairs :
    (r : Reader Value) (m : Entries) (b : Bytes)
    → decode_map r (map_count m) b ≡ decode_pairs r (pairs m) b
unfolding decode_map
decode_map-pairs r m b =
    let e : map_count m ≡ pairs m * 2 = map_count-pairs m in
    let half : map_count m / 2 ≡ pairs m = omega arith in
    let even : map_count m % 2 ≡ 0 = omega arith in rw even (rw half refl)

IsCounted-plain : (k : Kind) (n : ℕ) → IsCounted k n → k ≢ under_descriptor
IsCounted-plain k n h e = subst (λ j. IsCounted j n) e h

mutual
  unfolding encode encode_values encode_entries elements decode_value decode_body decode_n
      decode_pairs decode_array decode_elements array_count_ok is_zero_width read_u8

  pub value-decode :
      {n : ℕ} {v : Value}
      → IsEncodable n v
      → (rest : Bytes) → decode_value n (encode v ++ rest) ≡ ok (v, rest)
  value-decode (scalar {n} {v} h) rest = scalar-decode v n rest h
  value-decode (list_of {n} {vs} a f c) rest =
      >>=-ok (within read_compound32 (decode_n (decode_value n))) _ _ (
        within-append (decode_n (decode_value n)) (encode_values vs) rest (count vs) f c
          (read_all (decode_n (decode_value n) (count vs)) (encode_values vs) (values-decode a [])))
  value-decode (map_of {n} {m} a f c) rest =
      >>=-ok (within read_compound32 (decode_map (decode_value n))) _ _ (
        within-append (decode_map (decode_value n)) (encode_entries m) rest (map_count m) f c (
          decode_map-pairs (decode_value n) m (encode_entries m)
          ∙ read_all (decode_pairs (decode_value n) (pairs m)) (encode_entries m)
              (entries-decode a [])))
  value-decode (empty_array {n}) rest =
      >>=-ok (within read_compound32 (decode_array (decode_body n))) _ _ (
        within-append (decode_array (decode_body n)) (0x40 ∷ []) rest 0 {a = nil} (omega arith)
          (omega arith) refl)
  value-decode (array_of {n} {v} {vs} a l k f c) rest =
      let plain : kind_of v ≢ under_descriptor = IsCounted-plain (kind_of v) (suc (count vs)) k in
      let content : Bytes =
        shared (kind_of v) (encode v) (opening v) ++ elements (kind_of v) (cons v vs) in
      >>=-ok (within read_compound32 (decode_array (decode_body n))) _ _ (
        within-append (decode_array (decode_body n)) content rest (suc (count vs)) f c (
          decode_array-elements a l k plain
          ∙ read_all
              (decode_n ((λ x. x) <$> decode_body n (code (kind_of v) (nested_code v)))
                (suc (count vs)))
              (elements (kind_of v) (cons v vs))
              (elements-decode (kind_of v) (nested_code v) a (refl, refl, l) plain [])))
  value-decode (described_as {n} {d} {v} hd hv) rest =
      ap (λ b. decode_body (suc n) 0x00 b) (append_assoc (encode d) (encode v) rest)
      ∙ >>=-ok (decode_value n) (λ x. described x <$> decode_value n) _
          (value-decode hd (encode v ++ rest))
      ∙ >>=-ok (decode_value n) _ _ (value-decode hv rest)

  values-decode :
      {n : ℕ} {vs : Values}
      → AllEncodable n vs
      → (rest : Bytes)
      → decode_n (decode_value n) (count vs) (encode_values vs ++ rest) ≡ ok (vs, rest)
  values-decode nothing rest = refl
  values-decode (also {n} {v} {vs} h hs) rest =
      ap (decode_n (decode_value n) (suc (count vs)))
        (append_assoc (encode v) (encode_values vs) rest)
      ∙ >>=-ok (decode_value n) (λ x. cons x <$> decode_n (decode_value n) (count vs)) _
          (value-decode h (encode_values vs ++ rest))
      ∙ >>=-ok (decode_n (decode_value n) (count vs)) _ _ (values-decode hs rest)

  entries-decode :
      {n : ℕ} {m : Entries}
      → AllEntries n m
      → (rest : Bytes)
      → decode_pairs (decode_value n) (pairs m) (encode_entries m ++ rest) ≡ ok (m, rest)
  entries-decode no_entry rest = refl
  entries-decode (and_entry {n} {k} {v} {m} hk hv hm) rest =
      ap (decode_pairs (decode_value n) (suc (pairs m))) (
        append_assoc (encode k) (encode v ++ encode_entries m) rest
        ∙ ap (λ b. encode k ++ b) (append_assoc (encode v) (encode_entries m) rest))
      ∙ >>=-ok (decode_value n)
          (λ x. decode_value n >>= λ y. entry x y <$> decode_pairs (decode_value n) (pairs m)) _
          (value-decode hk (encode v ++ (encode_entries m ++ rest)))
      ∙ >>=-ok (decode_value n) (λ y. entry k y <$> decode_pairs (decode_value n) (pairs m)) _
          (value-decode hv (encode_entries m ++ rest))
      ∙ >>=-ok (decode_pairs (decode_value n) (pairs m)) _ _ (entries-decode hm rest)

  elements-decode :
      {n : ℕ} (k : Kind) (c : ℕ) {vs : Values}
      → AllEncodable n vs
      → AllAlike k c vs
      → k ≢ under_descriptor
      → (rest : Bytes)
      → decode_n ((λ v. v) <$> decode_body n (code k c)) (count vs) (elements k vs ++ rest)
        ≡ ok (vs, rest)
  elements-decode k c nothing a p rest = refl
  elements-decode k c (also {n} {v} {vs} h hs) a p rest =
      let same : Reader Value = (λ x. x) <$> decode_body n (code k c) in
      ap (decode_n same (suc (count vs)))
        (append_assoc (element k v (encode v) (inner v)) (elements k vs) rest)
      ∙ >>=-ok same (λ x. cons x <$> decode_n same (count vs)) _
          (>>=-ok (decode_body n (code k c)) _ _ (
            element-read k c h (elements k vs ++ rest) a.0 a.1 p
              (value-decode h (elements k vs ++ rest))))
      ∙ >>=-ok (decode_n same (count vs)) _ _ (elements-decode k c hs a.2 p rest)

-- A value that is encodable in the 65 levels of the decoder, that is at depth 64 or less, is decoded
-- as it was encoded, and the decoder stops at its last byte, whatever bytes follow. Encodable are all
-- scalars that Rust's types admit, lists and maps and described values of encodable values, and
-- arrays of encodable values of one type but described, where sizes and counts fit 32 bits and an
-- array of nulls has at most 1024.
pub decode-encode :
    (v : Value) (rest : Bytes)
    → IsEncodable (suc max_depth) v
    → decode (encode v ++ rest) ≡ ok (v, rest)
unfolding decode
decode-encode v rest h = value-decode h rest
