-- ===== src/Core/Ownership.antt =====
-- Who can settle a directive by `set_status` with a claim token, and what a refused call leaves
-- behind.
use laneq.Common.{
  ℕ, ◌≡◌, ◌≢◌, refl, ap, ◌∙◌, Bool, true, false, [], ◌∷◌, Option, none, some, arith, Bool-cases,
  Option-cases, Result-cases, inl, inr, ok, err, precondition, ◌⊎◌,
}
use laneq.Text.{Text, text_leb}
use laneq.Text.Order.{text_leb_trans, text_eq_refl}
use laneq.Clock.{Env, utc_now}
use laneq.Database.{Status, taken, Policy, requeue, hold, Directive, Db, find}
use laneq.Database.Rows.{apply_if}
use laneq.Action.{◌>>=◌}
use laneq.Core.Guard.{Guard, fenced, claim_guard, admits, is_live}
use laneq.Core.Fencing.{set_status_found, set_status_missing, set_status_protected}
use laneq.Core.Settle.{with_status, set_status}
use laneq.Core.Invariant.{IsWell}
use laneq.Core.Sweep.{normal, sweep_row}

pub Policy-cases : (p : Policy) → (p ≡ requeue) ⊎ (p ≡ hold)
Policy-cases requeue = inl refl
Policy-cases hold = inr refl

-- `r` is held under the token: it is taken, carries that token, and its lease runs at `now`.
pub record HoldsClaim (r : Directive) (token now : Text) : Type 0 where
  pub is_taken : r.status ≡ taken
  pub same_token : r.claim_token ≡ some token
  pub running : is_live r.lease_until now ≡ true

-- A row that is taken after the sweep was taken before it, and only its lane may be new.
pub sweep_row_of_taken :
    (env : Env) (i j : ℕ) (db : Db) (r : Directive)
    → (sweep_row env i j db r).status ≡ taken
    → (r.status ≡ taken) × (sweep_row env i j db r ≡ normal r)
sweep_row_of_taken env i j db r h = ground arith

-- A row with a running lease is left alone by the sweep, but for its lane.
pub sweep_row_of_live :
    (env : Env) (i j : ℕ) (db : Db) (r : Directive)
    → r.status ≡ taken
    → is_live r.lease_until (utc_now env i) ≡ true
    → sweep_row env i j db r ≡ normal r
sweep_row_of_live env i j db r t l = ground arith

pub live_earlier :
    (lease : Option Text) (now later : Text)
    → text_leb now later ≡ true
    → is_live lease later ≡ true
    → is_live lease now ≡ true
live_earlier none now later up h = cc
live_earlier (some at) now later up h = ground (arith, text_leb_trans at now later)

pub claim_guard_token :
    (token : Text) (force : Bool) (g : Guard)
    → claim_guard (some token) force ≡ ok g
    → (g ≡ fenced token) × (force ≡ false)
unfolding claim_guard
claim_guard_token [] force g h = cc
claim_guard_token (c ∷ cs) force g h = ground arith

guard_of_token : (token : Text) → token ≢ [] → claim_guard (some token) false ≡ ok (fenced token)
unfolding claim_guard
guard_of_token [] ne = absurd (ne refl)
guard_of_token (c ∷ cs) ne = refl

admits_held :
    (token : Text) {now : Text} (r : Directive)
    → HoldsClaim r token now
    → admits (fenced token) now (normal r) ≡ true
admits_held token r c = ground (arith, text_eq_refl token)

module _ (i : ℕ) (s : Status) (token : Text) (env : Env) (db : Db) (w : IsWell db) where
  guard_of_ok :
      (force : Bool) {reply : ℕ × Status}
      → (set_status i s (some token) force env db).0 ≡ ok reply
      → claim_guard (some token) force ≡ ok (fenced token)
  unfolding set_status ◌>>=◌
  guard_of_ok force {reply} h = elim (Result-cases (claim_guard (some token) force)) [
    | inl (g, e) ↦ e ∙ ap ok (claim_guard_token token force g e).0
    | inr (x, e) ↦ cc (rw e at h)
  ]

  -- A row that the guard admits after the sweep is held under the token.
  admitted_row :
      (r : Directive)
      → admits (fenced token) (utc_now env 3) (sweep_row env 0 1 db r) ≡ true
      → HoldsClaim r token (utc_now env 3)
        × (sweep_row env 0 1 db r ≡ normal r)
        × (admits (fenced token) (utc_now env 3) (normal r) ≡ true)
  admitted_row r h =
      let same = (sweep_row_of_taken env 0 1 db r (ground arith)).1 in
      let still : admits (fenced token) (utc_now env 3) (normal r) ≡ true = rw same at h in
      (ground arith, same, still)

  settled_row :
      (force : Bool) (r : Directive) {reply : ℕ × Status}
      → find i db.directives ≡ some r
      → (set_status i s (some token) force env db).0 ≡ ok reply
      → HoldsClaim r token (utc_now env 3)
        × (r.recovery_policy ≡ requeue)
        × (find i (set_status i s (some token) force env db).1.directives
            ≡ some (with_status s (utc_now env 2) (normal r)))
  settled_row force r {reply} f h =
      let guarded = guard_of_ok force h in
      elim (Policy-cases r.recovery_policy) [
        | inr o ↦
            cc (set_status_protected i s env db w (some token) force (fenced token) r guarded f o)
        | inl o ↦
            let found =
              set_status_found i s env db w (some token) force (fenced token) r guarded f o in
            let held = admitted_row r (ground (arith, found.0)) in
            (
              held.0,
              o,
              ap (λ d. find i d.directives) found.1
                  ∙ found.2
                  ∙ ap some (
                      ap
                        (apply_if (admits (fenced token) (utc_now env 3))
                          (with_status s (utc_now env 2)))
                        held.1
                      ∙ rw (held.2)),
            )
      ]

  -- If `set_status` with a token succeeds, the directive was an ordinary one, held under that very
  -- token with a lease that still ran when the UPDATE was made, and exactly the status write has
  -- been made to its row, apart from the lane that `connect` normalises.
  pub settle_needs_claim :
      (force : Bool) {reply : ℕ × Status}
      → (set_status i s (some token) force env db).0 ≡ ok reply
      → (r : Directive) × (find i db.directives ≡ some r)
        × HoldsClaim r token (utc_now env 3)
        × (r.recovery_policy ≡ requeue)
        × (find i (set_status i s (some token) force env db).1.directives
            ≡ some (with_status s (utc_now env 2) (normal r)))
  settle_needs_claim force h = elim (Option-cases (find i db.directives)) [
    | inl f ↦
        cc (
          set_status_missing i s env db w (some token) force (fenced token) (guard_of_ok force h) f)
    | inr (r, f) ↦ let found = settled_row force r f h in (r, f, found.0, found.1, found.2)
  ]

  -- The owner of an ordinary directive can settle it while its lease runs: the call succeeds with
  -- the reply, provided that the token is not empty, no override is asked for, and the clock has
  -- not gone back between its first reading in the call and its last.
  pub settle_held :
      (r : Directive)
      → find i db.directives ≡ some r
      → HoldsClaim r token (utc_now env 3)
      → r.recovery_policy ≡ requeue
      → token ≢ []
      → text_leb (utc_now env 0) (utc_now env 3) ≡ true
      → (set_status i s (some token) false env db).0 ≡ ok (i, s)
  settle_held r f c o ne up =
      let same =
        sweep_row_of_live env 0 1 db r c.is_taken
          (live_earlier r.lease_until (utc_now env 0) (utc_now env 3) up c.running) in
      (set_status_found i s env db w (some token) false (fenced token) r (guard_of_token token ne) f
        o).0
      ∙ rw same (rw (admits_held token r c))

  -- Without the claim nothing is settled: an ordinary directive that is not held under the token
  -- makes the call raise PreconditionError, and its row is as the sweep has left it.
  pub settle_refused :
      (r : Directive)
      → find i db.directives ≡ some r
      → ¬ HoldsClaim r token (utc_now env 3)
      → r.recovery_policy ≡ requeue
      → token ≢ []
      → ((set_status i s (some token) false env db).0 ≡ err precondition)
        × (find i (set_status i s (some token) false env db).1.directives
            ≡ some (sweep_row env 0 1 db r))
  settle_refused r f c o ne =
      let found =
        set_status_found i s env db w (some token) false (fenced token) r (guard_of_token token ne)
          f o in
      elim (Bool-cases (admits (fenced token) (utc_now env 3) (sweep_row env 0 1 db r))) [
        | inl e ↦ absurd (c (admitted_row r e).0)
        | inr e ↦ (found.0 ∙ rw e, ap (λ d. find i d.directives) found.1 ∙ found.2 ∙ rw e)
      ]
