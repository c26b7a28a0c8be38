-- ===== src/Inspection.antt =====
-- root_inspection.py: reading back an exact admission on a connection that is read only, so that
-- nothing is prepared or migrated. Every `Db` has the tables that `require_schema` asks for.
pub mod Reading
use laneq.Common.{Bool, true, false, not, Option, none, some, precondition}
use laneq.Text.{text_eq}
use laneq.Sql.{exists}
use laneq.Database.{ReservedRoot, Db}
use laneq.Action.{Action, gets, pure, raise_if, ◌>>=◌, ◌>>◌}
use laneq.Reservations.{Reservation}
use laneq.Reservations.Roots.{root, RootReceipt, receipt}

unfoldable pub inspect_row : Reservation → Option ReservedRoot → Action (Option RootReceipt)
unfolding receipt
inspect_row reservation none = do
  orphan ←
      gets
        (λ db. exists (λ a. text_eq a.admission_key reservation.task.admission_key) db.admissions)
  raise_if orphan precondition
  pure none
inspect_row reservation (some existing) = do
  raise_if (not (text_eq existing.reservation_digest reservation.digest)) precondition
  result ← receipt existing
  pure (some result)

unfoldable pub inspect : Reservation → Action (Option RootReceipt)
unfolding inspect_row
inspect reservation = do
  existing ← gets (λ db. root reservation.task.admission_key db.roots)
  inspect_row reservation existing
