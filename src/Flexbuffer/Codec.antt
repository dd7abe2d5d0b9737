-- ===== src/Flexbuffer/Codec.antt =====
-- A plain format for documents, which shows that the laws of the flexbuffers library can be met:
-- each number is written with its name and, within a map, the name in that map.
use tensorlib.Prelude.{
  ℕ, suc, ◌≡◌, refl, ◌∙◌, ◌==◌, ◌&&◌, arith, Bool-cases, inl, inr, false, none, some, List, [], ◌∷◌,
  ◌++◌, if◌then◌else◌,
}
use tensorlib.Flexbuffer.{
  FieldName, field_index, same_field, FlexValue, number, submap, lookup, Flexbuffers, IsLawful,
}

pub data Place : Type 0 where
  document : Place
  entry : ℕ → Place
  inner : ℕ → ℕ → Place

-- Names in a map are written one higher, so that 0 says that there is no map.
abbrev encode_sub : ℕ → List (FieldName × ℕ) → List ℕ
encode_sub f [] = []
encode_sub f ((g, n) ∷ sub) = f ∷ suc (field_index g) ∷ n ∷ encode_sub f sub

abbrev encode_value : ℕ → FlexValue → List ℕ
encode_value f (number n) = f ∷ 0 ∷ n ∷ []
encode_value f (submap sub) = encode_sub f sub

abbrev encode : List (FieldName × FlexValue) → List ℕ
encode [] = []
encode ((f, v) ∷ fields) = encode_value (field_index f) v ++ encode fields

abbrev scan : ℕ → ℕ → List ℕ → ℕ
scan a b [] = 0
scan a b (x ∷ []) = 0
scan a b (x ∷ y ∷ []) = 0
scan a b (x ∷ y ∷ n ∷ rest) = if x == a && y == b then n else scan a b rest

abbrev step : Place → ℕ → Place
step document f = entry f
step (entry f) g = inner f g
step (inner f g) h = inner f g

abbrev read : List ℕ → Place → ℕ
read bytes document = 0
read bytes (entry f) = scan f 0 bytes
read bytes (inner f g) = scan f (suc g) bytes

abbrev pub plain : Flexbuffers
plain = record {
  Reference = List ℕ × Place;
  build = encode;
  get_root = λ bytes. (bytes, document);
  get = λ r f. (r.0, step r.1 (field_index f));
  as_uint64 = λ r. read r.0 r.1;
}

-- Other names are passed over.
scan-skip :
    (a b f : ℕ) (v : FlexValue) (rest : List ℕ)
    → (f == a) ≡ false
    → scan a b (encode_value f v ++ rest) ≡ scan a b rest
scan-skip a b f (number n) rest ne = rw ne refl
scan-skip a b f (submap []) rest ne = refl
scan-skip a b f (submap ((g, n) ∷ sub)) rest ne = rw ne (scan-skip a b f (submap sub) rest ne)

scan-sub :
    (a : ℕ) (g : FieldName) (n : ℕ) (sub : List (FieldName × ℕ)) (rest : List ℕ)
    → lookup g sub ≡ some n
    → scan a (suc (field_index g)) (encode_sub a sub ++ rest) ≡ n
scan-sub a g n [] rest h = absurd (cc h)
scan-sub a g n ((g', m) ∷ sub) rest h = elim (Bool-cases (same_field g' g)) [
  | inl same ↦ ground arith
  | inr other ↦ ground (arith, scan-sub a g n sub rest (rw other at h))
]

read-number :
    (fields : List (FieldName × FlexValue)) (f : FieldName) (n : ℕ)
    → lookup f fields ≡ some (number n)
    → scan (field_index f) 0 (encode fields) ≡ n
read-number [] f n h = absurd (cc h)
read-number ((g, v) ∷ fields) f n h = elim (Bool-cases (same_field g f)) [
  | inl same ↦ let here : v ≡ number n = ground arith in rw here (ground arith)
  | inr other ↦
      scan-skip (field_index f) 0 (field_index g) v (encode fields) other
      ∙ read-number fields f n (rw other at h)
]

read-missing :
    (fields : List (FieldName × FlexValue)) (f : FieldName)
    → lookup f fields ≡ none
    → scan (field_index f) 0 (encode fields) ≡ 0
read-missing [] f h = refl
read-missing ((g, v) ∷ fields) f h = elim (Bool-cases (same_field g f)) [
  | inl same ↦ absurd (cc (rw same at h))
  | inr other ↦
      scan-skip (field_index f) 0 (field_index g) v (encode fields) other
      ∙ read-missing fields f (rw other at h)
]

read-nested :
    (fields : List (FieldName × FlexValue)) (f g : FieldName) (sub : List (FieldName × ℕ)) (n : ℕ)
    → lookup f fields ≡ some (submap sub)
    → lookup g sub ≡ some n
    → scan (field_index f) (suc (field_index g)) (encode fields) ≡ n
read-nested [] f g sub n h k = absurd (cc h)
read-nested ((f', v) ∷ fields) f g sub n h k = elim (Bool-cases (same_field f' f)) [
  | inl same ↦
      let here : v ≡ submap sub = ground arith in
      let name : field_index f' ≡ field_index f = ground arith in
      rw (here, name) (scan-sub (field_index f) g n sub (encode fields) k)
  | inr other ↦
      scan-skip (field_index f) (suc (field_index g)) (field_index f') v (encode fields) other
      ∙ read-nested fields f g sub n (rw other at h) k
]

pub plain-IsLawful : IsLawful plain
plain-IsLawful = record {
  read_number = λ fields f n h small. read-number fields f n h;
  read_missing = read-missing;
  read_nested = λ fields f g sub n h k small. read-nested fields f g sub n h k;
}
