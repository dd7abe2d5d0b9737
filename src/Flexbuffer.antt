-- ===== src/Flexbuffer.antt =====
-- What network/ uses of the flexbuffers library (extern/flatbuffers): documents that map the names
-- of fields to numbers, or to maps of numbers. The library is an argument, with its documented
-- behaviour as a record of laws. The code reads payloads without verifying them, and the library's
-- GetRoot is undefined on bytes that are no document; `get_root` is some value there, so that what is
-- said of a parser tells of the code only for payloads that are documents. The names are those of `message_fields`.
pub mod Codec
use tensorlib.Prelude.{
  ℕ, ◌%◌, ◌^◌, ◌<◌, ◌≡◌, ◌==◌, Bool, Option, none, some, List, [], ◌∷◌, if◌then◌else◌,
}
use tensorlib.Prelude.Word.{word_mod}

-- message_field_idx
pub data FieldName : Type 0 where
  msg_category_field msg_id_field session_type_field node_id_field layer_type_field status_field :
      FieldName
  acked_header_field ack_nack_field port_field ip_field simulation_binding_point_field : FieldName
  comm_layer_binding_point_field analytic_layer_binding_point_field : FieldName

abbrev pub field_index : FieldName → ℕ
field_index msg_category_field = 0
field_index msg_id_field = 1
field_index session_type_field = 2
field_index node_id_field = 3
field_index layer_type_field = 4
field_index status_field = 5
field_index acked_header_field = 6
field_index ack_nack_field = 7
field_index port_field = 8
field_index ip_field = 9
field_index simulation_binding_point_field = 10
field_index comm_layer_binding_point_field = 11
field_index analytic_layer_binding_point_field = 12

abbrev pub same_field : FieldName → FieldName → Bool
same_field f g = field_index f == field_index g

pub data FlexValue : Type 0 where
  number : ℕ → FlexValue
  submap : List (FieldName × ℕ) → FlexValue

-- The first value of a name in a map.
abbrev pub lookup {ℓ} : {V : Type ℓ} → FieldName → List (FieldName × V) → Option V
lookup f [] = none
lookup f ((g, v) ∷ fields) = if same_field g f then some v else lookup f fields

-- `build` is Builder::Map with Finish and GetBuffer, `get` is AsMap and operator[].
pub record Flexbuffers : Type 1 where
  pub Reference : Type 0
  pub build : List (FieldName × FlexValue) → List ℕ
  pub get_root : List ℕ → Reference
  pub get : Reference → FieldName → Reference
  pub as_uint64 : Reference → ℕ

-- The narrower reads truncate.
abbrev pub as_uint : (flex : Flexbuffers) → ℕ → flex.Reference → ℕ
as_uint flex width r = flex.as_uint64 r % 2 ^ width

-- A number that was written is read back, also from a map within the document, and a name that was
-- not written reads as 0.
pub record IsLawful (flex : Flexbuffers) : Type 0 where
  pub read_number :
      (fields : List (FieldName × FlexValue)) (f : FieldName) (n : ℕ)
      → lookup f fields ≡ some (number n)
      → n < word_mod
      → flex.as_uint64 (flex.get (flex.get_root (flex.build fields)) f) ≡ n
  pub read_missing :
      (fields : List (FieldName × FlexValue)) (f : FieldName)
      → lookup f fields ≡ none
      → flex.as_uint64 (flex.get (flex.get_root (flex.build fields)) f) ≡ 0
  pub read_nested :
      (fields : List (FieldName × FlexValue)) (f g : FieldName) (sub : List (FieldName × ℕ)) (n : ℕ)
      → lookup f fields ≡ some (submap sub)
      → lookup g sub ≡ some n
      → n < word_mod
      → flex.as_uint64 (flex.get (flex.get (flex.get_root (flex.build fields)) f) g) ≡ n
