-- ===== src/PostingList/Tests.antt =====
-- A list of two documents, and the theorems at it.
use native.Mathlib.Decide.{dec_lt}
use nebula_fs.Common.{◌≡◌, refl, [], ◌∷◌, length, arith}
use nebula_fs.Common.Order.{lt_wf}
use nebula_fs.Outcome.{ok, fail}
use nebula_fs.VarInt.{encode, decode}
use nebula_fs.Reader.{read_varint, need_more}
use nebula_fs.PostingList.{PostingList, empty, add_occurrence, serialize, deserialize}
use nebula_fs.PostingList.Occurrences.{IsValid, add_occurrence-IsValid}
use nebula_fs.PostingList.Wire.{IsSerializable, deserialize-serialize_postings}

abbrev sample : PostingList
sample = record {
  postings =
      record { doc_id = 7; term_frequency = 2; positions = 3 ∷ 300 ∷ [] }
      ∷ record { doc_id = 5; term_frequency = 1; positions = 1 ∷ [] }
      ∷ [];
  total_tf = 3;
}

sample_built : add_occurrence 5 1 (add_occurrence 7 300 (add_occurrence 7 3 empty)) ≡ sample
unfolding add_occurrence
sample_built = refl

-- 5 after 7 is a difference of ten bytes.
sample_bytes : length (serialize sample) ≡ 18
unfolding serialize encode lt_wf dec_lt
sample_bytes = refl

deserialize_cut : deserialize 100 (1 ∷ 7 ∷ []) ≡ fail
unfolding deserialize read_varint need_more decode
deserialize_cut = refl

sample-IsValid : IsValid sample
sample-IsValid = omega arith

sample-IsSerializable : IsSerializable 100 sample
sample-IsSerializable = record {
  wire = omega arith;
  total = refl;
  few = omega arith;
  machine = omega arith;
  short = omega (arith, sample_bytes);
}

deserialize-serialize_postings_example : deserialize 100 (serialize sample) ≡ ok sample
deserialize-serialize_postings_example =
    deserialize-serialize_postings 100 sample sample-IsSerializable

add_occurrence-IsValid_example : IsValid (add_occurrence 7 9 sample)
add_occurrence-IsValid_example = add_occurrence-IsValid 7 9 sample sample-IsValid
