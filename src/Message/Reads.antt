-- ===== src/Message/Reads.antt =====
-- network/message/message.cpp: the reads of one field of a document that was built.
use native.Mathlib.Nat.{mod-eq_of_lt}
use tensorlib.Prelude.{ℕ, ◌%◌, ◌^◌, ◌<◌, ◌≡◌, refl, ◌∙◌, ap, arith, false, some, List, is_empty}
use tensorlib.Prelude.Word.{word_mod}
use tensorlib.Flexbuffer.{
  FieldName, FlexValue, number, submap, lookup, Flexbuffers, IsLawful, as_uint,
}
use tensorlib.Message.{
  BindingPoint, split_message, Acknowledgement, SessionStatusRequest, SessionStatusResponse,
  SimulationDescription, SessionShutdownRequest, build_acknowledgement, build_status_request,
  build_status_response, build_simulation_description, build_shutdown_request,
}

-- A number that the C++ type of `width` bits can hold.
abbrev pub Fits : ℕ → ℕ → Type 0
Fits width n = n < 2 ^ width

abbrev pub BindingFits : BindingPoint → Type 0
BindingFits bp = Fits 16 bp.port × Fits 32 bp.ip

-- The bytes are a message with this header, and its payload is parsed to `msg`.
abbrev pub ReadsAs {ℓ} : {M : Type ℓ} → (List ℕ → M) → ℕ → ℕ → M → List ℕ → Type ℓ
ReadsAs parse category id msg bytes =
    (payload : List ℕ) × (split_message bytes
      ≡ some (record { header = record { category = category; id = id }; payload = payload }))
    × (parse payload ≡ msg)

module _ (flex : Flexbuffers) (lawful : IsLawful flex) where
  pub read-number :
      (width : ℕ) (fields : List (FieldName × FlexValue)) (f : FieldName) (n : ℕ)
      → lookup f fields ≡ some (number n)
      → n < 2 ^ width
      → n < word_mod
      → as_uint flex width (flex.get (flex.get_root (flex.build fields)) f) ≡ n
  read-number width fields f n at fits small =
      ap (λ x. x % 2 ^ width) (lawful.read_number fields f n at small) ∙ mod-eq_of_lt fits

  pub read-nested :
      (width : ℕ) (fields : List (FieldName × FlexValue)) (f g : FieldName)
      (sub : List (FieldName × ℕ)) (n : ℕ)
      → lookup f fields ≡ some (submap sub)
      → lookup g sub ≡ some n
      → n < 2 ^ width
      → n < word_mod
      → as_uint flex width (flex.get (flex.get (flex.get_root (flex.build fields)) f) g) ≡ n
  read-nested width fields f g sub n at at' fits small =
      ap (λ x. x % 2 ^ width) (lawful.read_nested fields f g sub n at at' small) ∙ mod-eq_of_lt fits

  -- The reads of fields that a document begins with, with the widths of the C++ types.
  pub read16 :
      (fields : List (FieldName × FlexValue)) (f : FieldName) (n : ℕ)
      → lookup f fields ≡ some (number n)
      → Fits 16 n
      → as_uint flex 16 (flex.get (flex.get_root (flex.build fields)) f) ≡ n
  read16 fields f n at fits = read-number 16 fields f n at fits (omega (arith, fits))

  pub read64 :
      (fields : List (FieldName × FlexValue)) (f : FieldName) (n : ℕ)
      → lookup f fields ≡ some (number n)
      → Fits 64 n
      → as_uint flex 64 (flex.get (flex.get_root (flex.build fields)) f) ≡ n
  read64 fields f n at fits = read-number 64 fields f n at fits fits

module _ (flex : Flexbuffers) where
  pub is_empty-build_acknowledgement :
      (msg : Acknowledgement) → is_empty (build_acknowledgement flex msg) ≡ false
  unfolding build_acknowledgement
  is_empty-build_acknowledgement msg = refl

  pub is_empty-build_status_request :
      (msg : SessionStatusRequest) → is_empty (build_status_request flex msg) ≡ false
  unfolding build_status_request
  is_empty-build_status_request msg = refl

  pub is_empty-build_status_response :
      (msg : SessionStatusResponse) → is_empty (build_status_response flex msg) ≡ false
  unfolding build_status_response
  is_empty-build_status_response msg = refl

  pub is_empty-build_simulation_description :
      (msg : SimulationDescription) → is_empty (build_simulation_description flex msg) ≡ false
  unfolding build_simulation_description
  is_empty-build_simulation_description msg = refl

  pub is_empty-build_shutdown_request :
      (msg : SessionShutdownRequest) → is_empty (build_shutdown_request flex msg) ≡ false
  unfolding build_shutdown_request
  is_empty-build_shutdown_request msg = refl
