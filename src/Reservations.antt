-- ===== src/Reservations.antt =====
-- reservation_contract.py: the bounded inputs of resource reservations, and their parsing.
pub mod Roots
use laneq.Common.{
  ℕ, suc, List, [], ◌∷◌, ◌++◌, Bool, true, false, not, ◌&&◌, ◌||◌, Result, ok, err, queue_error,
  leb, ltb, ◌==◌, if◌then◌else◌,
}
use laneq.Common.Lists.{length}
use laneq.Text.{Text, codes, text_eq, text_mem, text_leb}
use laneq.Contract.{
  Value, Values, nil, cons, list, Fields, ◌>>=◌, ◌>>◌, require, object_fields, get_field,
  bounded_text, digest_text, parse_successor, encoded_size, fits, count_values, all_distinct,
}
use laneq.Contract.Json.{Successor, quoted, entry, encode_successor}

pub record Dependency : Type 0 where
  pub work_id : Text
  pub delivery_digest : Text

pub record Reservation : Type 0 where
  pub task : Successor
  pub work_id : Text
  pub namespace : Text
  pub qualification_digest : Text
  pub paths : List Text
  pub dependencies : List Dependency
  pub digest : Text

abbrev has_blank : Text → Bool
has_blank [] = false
has_blank (c ∷ cs) = (ltb c 33 || c == 127) || has_blank cs

unfoldable pub identity : Value → Result Text
unfolding bounded_text
identity value = do result ← bounded_text value 256; require (not (has_blank result)); ok result

abbrev is_alphanumeric : ℕ → Bool
is_alphanumeric c = (leb 97 c && leb c 122) || (leb 48 c && leb c 57)

-- [a-z0-9._:/-]
abbrev in_namespace : ℕ → Bool
in_namespace c = is_alphanumeric c || c == 46 || c == 95 || c == 58 || c == 47 || c == 45

abbrev all_in_namespace : Text → Bool
all_in_namespace [] = true
all_in_namespace (c ∷ cs) = in_namespace c && all_in_namespace cs

-- `re.fullmatch(r"[a-z0-9][a-z0-9._:/-]*", text)`
abbrev pub is_namespace : Text → Bool
is_namespace [] = false
is_namespace (c ∷ cs) = is_alphanumeric c && all_in_namespace cs

unfoldable pub namespace_text : Value → Result Text
unfolding bounded_text
namespace_text value = do result ← bounded_text value 256; require (is_namespace result); ok result

-- A backslash or a control character.
abbrev has_control : Text → Bool
has_control [] = false
has_control (c ∷ cs) = (c == 92 || ltb c 32 || c == 127) || has_control cs

abbrev pub extend_part : ℕ → List Text → List Text
extend_part c [] = (c ∷ []) ∷ []
extend_part c (part ∷ parts) = (c ∷ part) ∷ parts

-- `text.split("/")`
unfoldable pub split_path : Text → List Text
split_path [] = [] ∷ []
split_path (c ∷ cs) =
    let parts = split_path cs in if c == 47 then [] ∷ parts else extend_part c parts

abbrev pub is_special : Text → Bool
is_special part = text_eq part [] || text_eq part (codes ".") || text_eq part (codes "..")

abbrev any_special : List Text → Bool
any_special [] = false
any_special (p ∷ ps) = is_special p || any_special ps

unfoldable pub path_of : Text → Result Text
unfolding split_path
path_of result =
    if text_eq result (codes ".")
    then ok result
    else if has_control result
    then err queue_error
    else if any_special (split_path result)
    then err queue_error
    else ok result

unfoldable pub path_text : Value → Result Text
unfolding bounded_text path_of
path_text value = bounded_text value 4096 >>= path_of

unfoldable pub path_texts : Values → Result (List Text)
unfolding path_text
path_texts nil = ok []
path_texts (cons v vs) = do
  path ← path_text v
  let rest = path_texts vs
  paths ← rest
  ok (path ∷ paths)

abbrev pub insert_text : Text → List Text → List Text
insert_text t [] = t ∷ []
insert_text t (u ∷ us) = if text_leb t u then t ∷ u ∷ us else u ∷ insert_text t us

-- `sorted` on texts
unfoldable pub sort_texts : List Text → List Text
unfolding text_leb
sort_texts [] = []
sort_texts (t ∷ ts) = insert_text t (sort_texts ts)

unfoldable pub paths_value : Value → Result (List Text)
unfolding path_texts sort_texts
paths_value (list vs) = do
  require (leb 1 (count_values vs) && leb (count_values vs) 64)
  paths ← path_texts vs
  require (all_distinct (sort_texts paths))
  ok (sort_texts paths)
paths_value _ = err queue_error

unfoldable pub dependency : Value → Result Dependency
unfolding object_fields get_field identity digest_text
dependency value = do
  fields ← object_fields value (codes "work_id" ∷ codes "delivery_digest" ∷ [])
  work_id ← get_field (codes "work_id") fields >>= identity
  delivery ← get_field (codes "delivery_digest") fields >>= digest_text
  ok (record { work_id = work_id; delivery_digest = delivery })

unfoldable pub dependencies : Values → Result (List Dependency)
unfolding dependency
dependencies nil = ok []
dependencies (cons v vs) = do d ← dependency v; let rest = dependencies vs; ds ← rest; ok (d ∷ ds)

abbrev pub work_ids : List Dependency → List Text
work_ids [] = []
work_ids (d ∷ ds) = d.work_id ∷ work_ids ds

abbrev pub insert_dependency : Dependency → List Dependency → List Dependency
insert_dependency d [] = d ∷ []
insert_dependency d (e ∷ es) =
    if text_leb d.work_id e.work_id then d ∷ e ∷ es else e ∷ insert_dependency d es

-- `sorted(result, key=lambda item: item.work_id)`
unfoldable pub sort_dependencies : List Dependency → List Dependency
unfolding text_leb
sort_dependencies [] = []
sort_dependencies (d ∷ ds) = insert_dependency d (sort_dependencies ds)

unfoldable pub dependencies_value : Value → Text → Result (List Dependency)
unfolding dependencies sort_dependencies
dependencies_value (list vs) work_id = do
  require (leb (count_values vs) 64)
  ds ← dependencies vs
  require (all_distinct (work_ids ds) && not (text_mem work_id (work_ids ds)))
  ok (sort_dependencies ds)
dependencies_value _ work_id = err queue_error

unfoldable pub encode_texts : List Text → Text
unfolding quoted
encode_texts [] = []
encode_texts (t ∷ []) = quoted t
encode_texts (t ∷ u ∷ us) = quoted t ++ 44 ∷ encode_texts (u ∷ us)

unfoldable pub encode_dependency : Dependency → Text
unfolding entry quoted
encode_dependency d =
    123
    ∷ entry (codes "delivery_digest") (quoted d.delivery_digest)
        (44 ∷ entry (codes "work_id") (quoted d.work_id) (125 ∷ []))

unfoldable pub encode_dependencies : List Dependency → Text
unfolding encode_dependency
encode_dependencies [] = []
encode_dependencies (d ∷ []) = encode_dependency d
encode_dependencies (d ∷ e ∷ es) = encode_dependency d ++ 44 ∷ encode_dependencies (e ∷ es)

-- The canonical JSON text: sorted keys, no blanks.
unfoldable pub encode_reservation :
    Successor → Text → Text → Text → List Text → List Dependency → Text
unfolding entry quoted encode_texts encode_dependencies encode_successor
encode_reservation task work_id namespace qualification paths ds =
    123
    ∷ entry (codes "dependencies") (91 ∷ encode_dependencies ds ++ 93 ∷ []) (
        44
        ∷ entry (codes "namespace") (quoted namespace) (
            44
            ∷ entry (codes "paths") (91 ∷ encode_texts paths ++ 93 ∷ []) (
                44
                ∷ entry (codes "qualification_digest") (quoted qualification) (
                    44
                    ∷ entry (codes "task") (encode_successor task)
                        (44 ∷ entry (codes "work_id") (quoted work_id) (125 ∷ []))))))

-- `sha256` is the hexadecimal SHA-256 of a text.
unfoldable pub freeze :
    (Text → Text)
    → Successor
    → Text
    → Text
    → Text
    → List Text
    → List Dependency
    → Result Reservation
unfolding encode_reservation encoded_size
freeze sha256 task work_id namespace qualification paths ds =
    let encoded = encode_reservation task work_id namespace qualification paths ds in
    require (fits (encoded_size encoded) 131072)
    >> ok (record {
      task = task;
      work_id = work_id;
      namespace = namespace;
      qualification_digest = qualification;
      paths = paths;
      dependencies = ds;
      digest = sha256 encoded;
    })

abbrev is_root_lane : Text → Bool
is_root_lane lane =
    text_eq lane (codes "dev:implementation") || text_eq lane (codes "matchpoint:implementation")

unfoldable pub parse_reservation : (Text → Text) → Value → Result Reservation
unfolding object_fields get_field parse_successor identity namespace_text digest_text paths_value
    dependencies_value freeze
parse_reservation sha256 value = do
  fields ← object_fields value (
      codes "task"
      ∷ codes "work_id"
      ∷ codes "namespace"
      ∷ codes "qualification_digest"
      ∷ codes "paths"
      ∷ codes "dependencies"
      ∷ [])
  task ← get_field (codes "task") fields >>= parse_successor
  require (is_root_lane task.lane)
  work_id ← get_field (codes "work_id") fields >>= identity
  namespace ← get_field (codes "namespace") fields >>= namespace_text
  qualification ← get_field (codes "qualification_digest") fields >>= digest_text
  paths ← get_field (codes "paths") fields >>= paths_value
  ds ← get_field (codes "dependencies") fields >>= λ v. dependencies_value v work_id
  freeze sha256 task work_id namespace qualification paths ds
