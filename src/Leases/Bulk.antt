-- ===== src/Leases/Bulk.antt =====
-- The loops of cli.py, which select rows and then update them one by one, have the effect of one
-- UPDATE over the table.
use laneq.Common.{
  ℕ, ◌≡◌, refl, sym, ap, ◌∙◌, Bool, true, ◌&&◌, List, [], ◌∷◌, none, some, arith, fun_ext,
}
use laneq.Common.Lists.{mem}
use laneq.Text.{Text}
use laneq.Clock.{Env, utc_now}
use laneq.Sql.{select, update, order_by}
use laneq.Database.{taken, deferred, status_eq, Directive, Db, connect}
use laneq.Database.Rows.{
  Ascends, ids, update_by_ids, mem-select-order_by, select-select, select_all,
}
use laneq.Leases.{
  queue_before, release, releases, release_or_hold, is_expired, reclaim_each, is_stale,
  reclaim_expired_leases, is_ready, promote, promotes, promote_each, reclaim_deferred, release_each,
  reap_stale,
}

module _ (now : Text) where
  reclaim_again :
      (i : ℕ) (js : List ℕ) (rows : List Directive)
      → update
          (λ r. mem r.id js && is_expired now r)
          release
          (update (releases i (some now)) release rows)
        ≡ update (λ r. mem r.id (i ∷ js) && is_expired now r) release rows
  reclaim_again i js [] = refl
  reclaim_again i js (r ∷ rs) = ground (arith, reclaim_again i js rs)

  reclaim_each-eq-update :
      (chosen rows : List Directive)
      → (reclaim_each now chosen rows).0
        ≡ update (λ r. mem r.id (ids chosen) && is_expired now r) release rows
  unfolding reclaim_each release_or_hold
  reclaim_each-eq-update [] [] = refl
  reclaim_each-eq-update [] (r ∷ rs) = ground (arith, reclaim_each-eq-update [] rs)
  reclaim_each-eq-update (c ∷ cs) rows =
      reclaim_each-eq-update cs (update (releases c.id (some now)) release rows)
      ∙ reclaim_again c.id (ids cs) rows

promote_again :
    (i : ℕ) (js : List ℕ) (rows : List Directive)
    → update
        (λ r. mem r.id js && status_eq r.status deferred)
        promote
        (update (promotes i) promote rows)
      ≡ update (λ r. mem r.id (i ∷ js) && status_eq r.status deferred) promote rows
promote_again i js [] = refl
promote_again i js (r ∷ rs) = ground (arith, promote_again i js rs)

promote_each-eq-update :
    (ready rows : List Directive)
    → promote_each ready rows
      ≡ update (λ r. mem r.id (ids ready) && status_eq r.status deferred) promote rows
unfolding promote_each
promote_each-eq-update [] [] = refl
promote_each-eq-update [] (r ∷ rs) = ground (arith, promote_each-eq-update [] rs)
promote_each-eq-update (c ∷ cs) rows =
    promote_each-eq-update cs (update (promotes c.id) promote rows)
    ∙ promote_again c.id (ids cs) rows

release_again :
    (i : ℕ) (js : List ℕ) (rows : List Directive)
    → update
        (λ r. mem r.id js && status_eq r.status taken)
        release
        (update (releases i none) release rows)
      ≡ update (λ r. mem r.id (i ∷ js) && status_eq r.status taken) release rows
release_again i js [] = refl
release_again i js (r ∷ rs) = ground (arith, release_again i js rs)

release_each-eq-update :
    (stale rows : List Directive)
    → release_each stale rows
      ≡ update (λ r. mem r.id (ids stale) && status_eq r.status taken) release rows
unfolding release_each release_or_hold
release_each-eq-update [] [] = refl
release_each-eq-update [] (r ∷ rs) = ground (arith, release_each-eq-update [] rs)
release_each-eq-update (c ∷ cs) rows =
    release_each-eq-update cs (update (releases c.id none) release rows)
    ∙ release_again c.id (ids cs) rows

-- Two updates whose tests agree on every row, and the tests of nested SELECTs.
update_ext :
    (t u : Directive → Bool) (change : Directive → Directive) (rows : List Directive)
    → ((r : Directive) → t r ≡ u r)
    → update t change rows ≡ update u change rows
update_ext t u change rows h = ap (λ test. update test change rows) (fun_ext h)

module _ (lo hi : ℕ) (rows : List Directive) (up : Ascends lo rows hi) where
  -- On ids that ascend, the loop over the ordered rows is one UPDATE of the rows that it chose.
  by_ids :
      (t u also : Directive → Bool) (change : Directive → Directive)
      → update
          (λ r. mem r.id (ids (select u (order_by queue_before (select t rows)))) && also r)
          change
          rows
        ≡ update (λ r. (t r && u r) && also r) change rows
  by_ids t u also change =
      update_ext _ _ change rows (λ r.
        ap (λ b. b && also r)
          (mem-select-order_by u queue_before r.id (select t rows)
            ∙ ap (λ xs. mem r.id (ids xs)) (select-select t u rows)))
      ∙ update_by_ids (λ r. t r && u r) also change lo hi rows up

module _ (env : Env) (i lo hi : ℕ) (db : Db) (up : Ascends lo db.directives hi) where
  -- `reclaim_expired_leases` releases the taken rows whose lease has passed, and changes nothing else.
  pub reclaim_expired_leases-eq-update :
      (reclaim_expired_leases env i db).1
      ≡ record db { directives = update (is_expired (utc_now env i)) release db.directives }
  unfolding reclaim_expired_leases
  reclaim_expired_leases-eq-update =
      ap (λ rows. record db { directives = rows })
        (reclaim_each-eq-update now (order_by queue_before (select (is_expired now) db.directives))
            db.directives
          ∙ ap (λ xs. update (λ r. mem r.id (ids xs) && is_expired now r) release db.directives)
              (sym (select_all (order_by queue_before (select (is_expired now) db.directives))))
          ∙ by_ids lo hi db.directives up (is_expired now) (λ _. true) (is_expired now) release
          ∙ update_ext _ _ release db.directives (λ r. ground arith))
    where
      now : Text
      now = utc_now env i

  -- `reclaim_deferred`, a loop of single UPDATEs over an ordered SELECT, promotes exactly the
  -- deferred rows whose `not_before`, compared as a text, is absent or at most the text of the time,
  -- and whose dependencies were terminal before any promotion, and changes nothing else.
  pub reclaim_deferred-eq-update : (reclaim_deferred env i db).1 ≡ record db {
    directives =
        update
          (λ r. status_eq r.status deferred && is_ready (utc_now env i) db.directives r)
          promote
          db.directives;
  }
  unfolding reclaim_deferred
  reclaim_deferred-eq-update =
      ap (λ rows. record db { directives = rows })
        (promote_each-eq-update _ db.directives
          ∙ by_ids lo hi db.directives up (λ r. status_eq r.status deferred)
              (is_ready (utc_now env i) db.directives) (λ r. status_eq r.status deferred) promote
          ∙ update_ext _ _ promote db.directives (λ r. ground arith))

pub reap_stale-eq-update :
    (env : Env) (i stale_seconds lo hi : ℕ) (db : Db)
    → Ascends lo (connect db).directives hi
    → (reap_stale env i stale_seconds db).1 ≡ record (connect db) {
      directives =
          update
            (λ r. status_eq r.status taken && is_stale (env.clock i) stale_seconds r)
            release
            (connect db).directives;
    }
unfolding reap_stale
reap_stale-eq-update env i stale_seconds lo hi db up =
    ap (λ rows. record (connect db) { directives = rows })
      (release_each-eq-update _ (connect db).directives
        ∙ by_ids lo hi (connect db).directives up (λ r. status_eq r.status taken)
            (is_stale (env.clock i) stale_seconds) (λ r. status_eq r.status taken) release
        ∙ update_ext _ _ release (connect db).directives (λ r. ground arith))
