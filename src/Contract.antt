-- ===== src/Contract.antt =====
-- handoff_contract.py: the values that a handoff manifest is made of, and the checks by which it is
-- parsed. A Python object is a `Value`; a dict keeps its entries in order.
pub mod Json
pub mod Bounds
use laneq.Common.{
  ℕ, suc, ◌+◌, List, [], ◌∷◌, ◌++◌, Bool, true, false, not, ◌&&◌, ◌||◌, Option, none, some, Result,
  ok, err, Error, queue_error, key_error, leb, ltb, ◌==◌, if◌then◌else◌,
}
use laneq.Common.Lists.{length}
use laneq.Text.{Text, codes, text_eq, text_mem, strip}
use laneq.Core.Guard.{priority_value}
use Json.{Successor, encode_manifest}

mutual
  pub data Value : Type 0 where
    null : Value
    bool : Bool → Value
    num : ℕ → Value
    text : Text → Value
    list : Values → Value
    dict : Fields → Value

  pub data Values : Type 0 where
    nil : Values
    cons : Value → Values → Values

  pub data Fields : Type 0 where
    end : Fields
    field : Text → Value → Fields → Fields

-- A parsed manifest.
pub record Handoff : Type 0 where
  pub input_digest : Text
  pub artifact_digest : Text
  pub receipt_ref : Text
  pub receipt_digest : Text
  pub successors : List Successor
  pub encoded : Text
  pub digest : Text

-- An exception ends a block.
infixl 5 ◌>>=◌ ◌>>◌
abbrev pub ◌>>=◌ : {A B : Type 0} → Result A → (A → Result B) → Result B
err x >>= rest = err x
ok value >>= rest = rest value

abbrev pub ◌>>◌ : {A B : Type 0} → Result A → Result B → Result B
first >> rest = first >>= λ unused. rest

abbrev pub require : Bool → Result (Unit {0})
require true = ok tt
require false = err queue_error

abbrev has_key : Text → Fields → Bool
has_key k end = false
has_key k (field j v fs) = text_eq j k || has_key k fs

abbrev keys_in : Fields → List Text → Bool
keys_in end names = true
keys_in (field j v fs) names = text_mem j names && keys_in fs names

abbrev has_all : List Text → Fields → Bool
has_all [] fs = true
has_all (k ∷ ks) fs = has_key k fs && has_all ks fs

-- The fields of a dict whose keys are exactly the given ones.
unfoldable pub object_fields : Value → List Text → Result Fields
object_fields (dict fs) names =
    if keys_in fs names && has_all names fs then ok fs else err queue_error
object_fields _ names = err queue_error

-- `fields[name]`
unfoldable pub get_field : Text → Fields → Result Value
get_field name end = err key_error
get_field name (field j v fs) = if text_eq j name then ok v else get_field name fs

-- The bytes of a code point in UTF-8; a surrogate has none.
unfoldable pub utf8_size : ℕ → Option ℕ
utf8_size c =
    if ltb c 0x80
    then some 1
    else if ltb c 0x800
    then some 2
    else if ltb c 0xd800
    then some 3
    else if ltb c 0xe000
    then none
    else if ltb c 0x10000
    then some 3
    else some 4

-- `len(value.encode("utf-8"))`
unfoldable pub encoded_size : Text → Option ℕ
unfolding utf8_size
encoded_size [] = some 0
encoded_size (c ∷ cs) = elim (utf8_size c) [
  | none ↦ none
  | some n ↦ elim (encoded_size cs) [ none ↦ none | some m ↦ some (n + m) ]
]

abbrev is_blank : Text → Bool
is_blank [] = true
is_blank (c ∷ cs) = false

abbrev pub fits : Option ℕ → ℕ → Bool
fits none maximum = false
fits (some size) maximum = leb size maximum

unfoldable pub check_text : Text → ℕ → Result Text
unfolding strip encoded_size
check_text value maximum =
    if is_blank (strip value)
    then err queue_error
    else if fits (encoded_size value) maximum
    then ok value
    else err queue_error

unfoldable pub bounded_text : Value → ℕ → Result Text
unfolding check_text
bounded_text (text value) maximum = check_text value maximum
bounded_text _ maximum = err queue_error

abbrev is_hex_digit : ℕ → Bool
is_hex_digit c = (leb 48 c && leb c 57) || (leb 97 c && leb c 102)

abbrev all_hex : Text → Bool
all_hex [] = true
all_hex (c ∷ cs) = is_hex_digit c && all_hex cs

-- `re.fullmatch(r"[0-9a-f]{64}", text)`
abbrev pub is_digest : Text → Bool
is_digest value = all_hex value && length value == 64

unfoldable pub digest_text : Value → Result Text
unfolding bounded_text
digest_text value = do
  result ← bounded_text value 64
  if is_digest result then ok result else err queue_error

unfoldable pub parse_successor : Value → Result Successor
unfolding object_fields get_field bounded_text priority_value
parse_successor value = do
  fields ←
      object_fields value
        (codes "admission_key" ∷ codes "body" ∷ codes "lane" ∷ codes "priority" ∷ [])
  priority ← get_field (codes "priority") fields >>= λ v. bounded_text v 2
  priority_value priority
  key ← get_field (codes "admission_key") fields >>= λ v. bounded_text v 256
  body ← get_field (codes "body") fields >>= λ v. bounded_text v 65536
  lane ← get_field (codes "lane") fields >>= λ v. bounded_text v 128
  ok (record { admission_key = key; body = body; lane = lane; priority = priority })

abbrev pub count_values : Values → ℕ
count_values nil = 0
count_values (cons v vs) = suc (count_values vs)

unfoldable pub parse_each : Values → Result (List Successor)
unfolding parse_successor
parse_each nil = ok []
parse_each (cons v vs) = do
  child ← parse_successor v
  let rest = parse_each vs
  children ← rest
  ok (child ∷ children)

abbrev pub keys_of : List Successor → List Text
keys_of [] = []
keys_of (s ∷ ss) = s.admission_key ∷ keys_of ss

abbrev pub all_distinct : List Text → Bool
all_distinct [] = true
all_distinct (k ∷ ks) = not (text_mem k ks) && all_distinct ks

unfoldable pub parse_successors : Value → Result (List Successor)
unfolding parse_each
parse_successors (list vs) = do
  require (leb (count_values vs) 16)
  successors ← parse_each vs
  require (all_distinct (keys_of successors))
  ok successors
parse_successors _ = err queue_error

-- `sha256` is the hexadecimal SHA-256 of a text. The last steps of `parse_handoff`: the canonical text, its size and its digest.
unfoldable pub freeze : (Text → Text) → Text → Text → Text → Text → List Successor → Result Handoff
unfolding encode_manifest encoded_size
freeze sha256 source artifact receipt reference successors =
    let encoded = encode_manifest source artifact receipt reference successors in
    require (fits (encoded_size encoded) 131072)
    >> ok (record {
      input_digest = source;
      artifact_digest = artifact;
      receipt_ref = reference;
      receipt_digest = receipt;
      successors = successors;
      encoded = encoded;
      digest = sha256 encoded;
    })

unfoldable pub parse_fields : (Text → Text) → Fields → Result Handoff
unfolding get_field digest_text bounded_text parse_successors freeze
parse_fields sha256 fields = do
  source ← get_field (codes "input_digest") fields >>= digest_text
  artifact ← get_field (codes "artifact_digest") fields >>= digest_text
  receipt ← get_field (codes "receipt_digest") fields >>= digest_text
  reference ← get_field (codes "receipt_ref") fields >>= λ v. bounded_text v 4096
  successors ← get_field (codes "successors") fields >>= parse_successors
  freeze sha256 source artifact receipt reference successors

unfoldable pub parse_handoff : (Text → Text) → Value → Result Handoff
unfolding object_fields parse_fields
parse_handoff sha256 value =
    object_fields value (
      codes "input_digest"
      ∷ codes "artifact_digest"
      ∷ codes "receipt_ref"
      ∷ codes "receipt_digest"
      ∷ codes "successors"
      ∷ [])
    >>= parse_fields sha256
