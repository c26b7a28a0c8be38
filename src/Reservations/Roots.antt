-- ===== src/Reservations/Roots.antt =====
-- root_reservations.py: the atomic reservation of work, source paths and dependencies for a protected
-- root. `admit` is the whole operation; `record_delivery` is not here.
pub mod Exclusion
pub mod Admitting
pub mod Overlap
use laneq.Common.{
  ℕ, List, [], ◌∷◌, ◌++◌, Bool, true, false, not, ◌&&◌, ◌||◌, Option, none, some, Result, ok, err,
  precondition, type_error, if◌then◌else◌, ◌==◌,
}
use laneq.Text.{Text, codes, text_eq}
use laneq.Clock.{Env}
use laneq.Sql.{first, exists}
use laneq.Database.{Status, Directive, Admission, ReservedRoot, Db, find}
use laneq.Action.{
  Action, pure, lift, gets, modify, raise_if, open_connection, or_rollback, ◌>>=◌, ◌>>◌,
}
use laneq.Contract.{Value}
use laneq.Stage.{admit_in_transaction}
use laneq.Reservations.{Dependency, Reservation, parse_reservation}

-- SELECT * FROM reserved_roots WHERE admission_key=?
abbrev pub root : Text → List ReservedRoot → Option ReservedRoot
root key = first (λ r. text_eq r.admission_key key)

-- What `receipt` returns.
pub record RootReceipt : Type 0 where
  pub id : ℕ
  pub work_id : Text
  pub reservation_digest : Text
  pub status : Status
  pub delivery_digest : Option Text

abbrev pub receipt_by : ReservedRoot → Option Directive → Result RootReceipt
receipt_by row none = err precondition
receipt_by row (some state) = ok (record {
  id = row.directive_id;
  work_id = row.work_id;
  reservation_digest = row.reservation_digest;
  status = state.status;
  delivery_digest = row.delivery_digest;
})

unfoldable pub receipt : ReservedRoot → Action RootReceipt
receipt row = do
  state ← gets (λ db. find row.directive_id db.directives)
  lift (receipt_by row state)

abbrev is_null : Option Text → Bool
is_null none = true
is_null (some d) = false

-- `delivery_digest IS NULL`
abbrev pub is_active : ReservedRoot → Bool
is_active r = is_null r.delivery_digest

abbrev delivers : Option Text → Text → Bool
delivers none digest = false
delivers (some d) digest = text_eq d digest

abbrev pub is_delivered : List ReservedRoot → Dependency → Bool
is_delivered roots d =
    exists (λ r. text_eq r.work_id d.work_id && delivers r.delivery_digest d.delivery_digest) roots

abbrev pub all_delivered : List ReservedRoot → List Dependency → Bool
all_delivered roots [] = true
all_delivered roots (d ∷ ds) = is_delivered roots d && all_delivered roots ds

-- `instr(b, a) = 1`
abbrev pub is_prefix : Text → Text → Bool
is_prefix [] b = true
is_prefix (c ∷ cs) [] = false
is_prefix (c ∷ cs) (d ∷ ds) = c == d && is_prefix cs ds

-- One path is the other, or above it.
unfoldable pub overlaps : Text → Text → Bool
overlaps p q =
    text_eq p (codes ".")
    || text_eq q (codes ".")
    || is_prefix (p ++ 47 ∷ []) (q ++ 47 ∷ [])
    || is_prefix (q ++ 47 ∷ []) (p ++ 47 ∷ [])

-- The root of a row of `reserved_paths` is active in the namespace.
abbrev pub holds_path : Text → List ReservedRoot → Text × Text → Bool
holds_path namespace roots p =
    exists (λ r. text_eq r.admission_key p.0 && text_eq r.namespace namespace && is_active r) roots

abbrev pub is_taken : Text → List ReservedRoot → List (Text × Text) → Text → Bool
is_taken namespace roots rows path =
    exists (λ p. holds_path namespace roots p && overlaps p.1 path) rows

abbrev pub any_taken : Text → List ReservedRoot → List (Text × Text) → List Text → Bool
any_taken namespace roots rows [] = false
any_taken namespace roots rows (p ∷ ps) =
    is_taken namespace roots rows p || any_taken namespace roots rows ps

abbrev pub has_active_work : Text → List ReservedRoot → Bool
has_active_work work_id = exists (λ r. text_eq r.work_id work_id && is_active r)

unfoldable pub require_dependencies : Reservation → Action Unit
require_dependencies reservation = do
  delivered ← gets (λ db. all_delivered db.roots reservation.dependencies)
  raise_if (not delivered) precondition

unfoldable pub require_resources : Reservation → Action Unit
unfolding overlaps
require_resources reservation = do
  taken ← gets (λ db. any_taken reservation.namespace db.roots db.paths reservation.paths)
  raise_if taken precondition
  active ← gets (λ db. has_active_work reservation.work_id db.roots)
  raise_if active precondition

abbrev pub new_root : Reservation → ℕ → ReservedRoot
new_root reservation item_id = record {
  admission_key = reservation.task.admission_key;
  work_id = reservation.work_id;
  namespace = reservation.namespace;
  qualification_digest = reservation.qualification_digest;
  reservation_digest = reservation.digest;
  directive_id = item_id;
  final_key = none;
  delivery_digest = none;
}

abbrev pub path_rows : Text → List Text → List (Text × Text)
path_rows key [] = []
path_rows key (p ∷ ps) = (key, p) ∷ path_rows key ps

-- The INSERTs. No constraint of the tables fails here: the key and the work have been looked up, the
-- id is new, and the paths of a reservation are distinct.
unfoldable pub store_root : Reservation → ℕ → Action Unit
store_root reservation item_id = modify (λ db. record db {
  roots = db.roots ++ new_root reservation item_id ∷ [];
  paths = db.paths ++ path_rows reservation.task.admission_key reservation.paths;
})

-- A subscript of None is a TypeError.
abbrev pub require_row : Option ReservedRoot → Result ReservedRoot
require_row none = err type_error
require_row (some row) = ok row

unfoldable pub insert_root : Env → Reservation → Action ReservedRoot
unfolding require_dependencies require_resources admit_in_transaction store_root
insert_root env reservation = do
  admitted ←
      gets
        (λ db. exists (λ a. text_eq a.admission_key reservation.task.admission_key) db.admissions)
  raise_if admitted precondition
  require_dependencies reservation
  require_resources reservation
  item_id ← admit_in_transaction env 0 reservation.task none
  store_root reservation item_id
  row ← gets (λ db. root reservation.task.admission_key db.roots)
  lift (require_row row)

unfoldable pub root_or_insert : Env → Reservation → Option ReservedRoot → Action ReservedRoot
unfolding insert_root
root_or_insert env reservation none = insert_root env reservation
root_or_insert env reservation (some existing) = do
  raise_if (not (text_eq existing.reservation_digest reservation.digest)) precondition
  pure existing

unfoldable pub admit_root : Env → Reservation → Action RootReceipt
unfolding root_or_insert receipt
admit_root env reservation = do
  existing ← gets (λ db. root reservation.task.admission_key db.roots)
  row ← root_or_insert env reservation existing
  receipt row

-- The tables of SCHEMA exist in every `Db`.
unfoldable pub admit : Value → Env → Action RootReceipt
unfolding parse_reservation admit_root
admit value env = do
  reservation ← lift (parse_reservation env.sha256 value)
  open_connection
  or_rollback true (admit_root env reservation)
