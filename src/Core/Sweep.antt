-- ===== src/Core/Sweep.antt =====
-- What an operation of core.py does to the rows before its own UPDATE: it connects, reclaims the
-- expired leases and promotes the deferred directives that are ready.
use laneq.Common.{
  ℕ, suc, ◌≤◌, ◌≡◌, refl, ap, ◌∙◌, Bool, ◌&&◌, List, [], ◌∷◌, Option, none, some, arith, ◌==◌,
  if◌then◌else◌, ok,
}
use laneq.Text.{Text, text_eq}
use laneq.Clock.{Env, utc_now}
use laneq.Sql.{update, count}
use laneq.Database.{deferred, status_eq, Directive, Db, default_lane, find, connect}
use laneq.Database.Rows.{Ascends, find-update, apply_if, map_option}
use laneq.Leases.{is_expired, release, is_ready, promote, reclaim_expired_leases, reclaim_deferred}
use laneq.Leases.Counts.{reclaim_expired_leases_lem}
use laneq.Leases.Bulk.{reclaim_expired_leases-eq-update, reclaim_deferred-eq-update}
use laneq.Core.Invariant.{
  IsWell, connect-IsWell, reclaim_expired_leases-IsWell, reclaim_deferred-IsWell,
}

-- `normalize_lane` on one row.
abbrev pub normal : Directive → Directive
normal = apply_if (λ r. text_eq r.lane []) (λ r. record r { lane = default_lane })

abbrev pub released : Text → Db → Db
released now db = record db { directives = update (is_expired now) release db.directives }

abbrev pub promotion : Text → List Directive → Directive → Bool
promotion now rows r = status_eq r.status deferred && is_ready now rows r

abbrev pub promoted : Text → Db → Db
promoted now db = record db {
  directives = update (promotion now db.directives) promote db.directives;
}

-- With the (i+1)-th and the (j+1)-th reading of the clock.
abbrev pub reclaimed : Env → ℕ → Db → Db
reclaimed env i db = released (utc_now env i) (connect db)

abbrev pub sweep : Env → ℕ → ℕ → Db → Db
sweep env i j db = promoted (utc_now env j) (reclaimed env i db)

-- The same on one row.
abbrev pub reclaim_row : Env → ℕ → Directive → Directive
reclaim_row env i r = apply_if (is_expired (utc_now env i)) release (normal r)

abbrev pub sweep_row : Env → ℕ → ℕ → Db → Directive → Directive
sweep_row env i j db r =
    apply_if (promotion (utc_now env j) (reclaimed env i db).directives) promote
      (reclaim_row env i r)

map_option-map_option :
    (f g : Directive → Directive) (o : Option Directive)
    → map_option f (map_option g o) ≡ map_option (λ r. f (g r)) o
map_option-map_option f g none = refl
map_option-map_option f g (some r) = refl

pub find-connect :
    (k : ℕ) (db : Db) → find k (connect db).directives ≡ map_option normal (find k db.directives)
unfolding connect
find-connect k db = find-update _ _ (λ r. refl) k db.directives

pub find-reclaimed :
    (env : Env) (i k : ℕ) (db : Db)
    → find k (reclaimed env i db).directives ≡ map_option (reclaim_row env i) (find k db.directives)
find-reclaimed env i k db =
    find-update (is_expired (utc_now env i)) release (λ r. refl) k (connect db).directives
    ∙ ap (map_option (apply_if (is_expired (utc_now env i)) release)) (find-connect k db)
    ∙ map_option-map_option _ normal (find k db.directives)

pub find-sweep :
    (env : Env) (i j k : ℕ) (db : Db)
    → find k (sweep env i j db).directives
      ≡ map_option (sweep_row env i j db) (find k db.directives)
find-sweep env i j k db =
    find-update (promotion (utc_now env j) (reclaimed env i db).directives) promote (λ r. refl) k
      (reclaimed env i db).directives
    ∙ ap (map_option (apply_if (promotion (utc_now env j) (reclaimed env i db).directives) promote))
        (find-reclaimed env i k db)
    ∙ map_option-map_option _ (reclaim_row env i) (find k db.directives)

module _ (env : Env) (i j : ℕ) (db : Db) (w : IsWell db) where
  pub reclaim_lem :
      reclaim_expired_leases env i (connect db)
      ≡ (ok (count (is_expired (utc_now env i)) (connect db).directives), reclaimed env i db)
  reclaim_lem =
      reclaim_expired_leases_lem env i 1 (connect db).next_id (connect db)
        (connect-IsWell db w).ascending

  pub reclaimed-IsWell : IsWell (reclaimed env i db)
  reclaimed-IsWell =
      rw
        (reclaim_expired_leases-eq-update env i 1 (connect db).next_id (connect db)
          (connect-IsWell db w).ascending)
        at ((reclaim_expired_leases-IsWell env i).at (connect db) (connect-IsWell db w))

  pub defer_lem : reclaim_deferred env j (reclaimed env i db) ≡ (ok tt, sweep env i j db)
  unfolding reclaim_deferred
  defer_lem =
      ap (λ d. (ok tt, d))
        (reclaim_deferred-eq-update env j 1 (reclaimed env i db).next_id (reclaimed env i db)
          reclaimed-IsWell.ascending)

  pub sweep-IsWell : IsWell (sweep env i j db)
  sweep-IsWell =
      rw
        (reclaim_deferred-eq-update env j 1 (reclaimed env i db).next_id (reclaimed env i db)
          reclaimed-IsWell.ascending)
        at ((reclaim_deferred-IsWell env j).at (reclaimed env i db) reclaimed-IsWell)

-- The `rowcount` of an UPDATE that names one id.
abbrev pub rowcount : (Directive → Bool) → Option Directive → ℕ
rowcount test none = 0
rowcount test (some r) = if test r then 1 else 0

count_below :
    (test : Directive → Bool) (lo hi i : ℕ) (rows : List Directive)
    → Ascends lo rows hi
    → suc i ≤ lo
    → count (λ r. r.id == i && test r) rows ≡ 0
count_below test lo hi i [] h lt = refl
count_below test lo hi i (r ∷ rs) h lt = ground (arith, count_below test (suc r.id) hi i rs h.1)

pub count-rowcount :
    (test : Directive → Bool) (lo hi i : ℕ) (rows : List Directive)
    → Ascends lo rows hi
    → count (λ r. r.id == i && test r) rows ≡ rowcount test (find i rows)
count-rowcount test lo hi i [] h = refl
count-rowcount test lo hi i (r ∷ rs) h =
    ground
      (arith, count-rowcount test (suc r.id) hi i rs h.1, count_below test (suc r.id) hi i rs h.1)
