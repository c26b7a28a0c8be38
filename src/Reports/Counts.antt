-- ===== src/Reports/Counts.antt =====
-- What `stats` counts.
use laneq.Common.{
  ℕ, suc, ◌+◌, ◌<◌, ◌≡◌, refl, ap, sym, ◌∙◌, subst, List, [], ◌∷◌, Bool, true, false, ◌&&◌, arith,
  Bool-cases, inl, inr, ◌==◌, if◌then◌else◌, map, ok, some, none, ltb, Option, ℕ_discrete,
}
use laneq.Common.Lists.{length}
use laneq.Text.{Text, codes, text_eq, text_leb, Text-discrete}
use laneq.Text.Order.{text_eq_refl, eq_of_text_eq, text_leb_trans, text_leb_total, text_leb_antisym}
use laneq.Database.{
  Status, pending, taken, deferred, done, dropped, parked, status_eq, Directive, Db,
}
use laneq.Core.Guard.{priority_name}
use laneq.Reports.{for_each, refresh}
use laneq.Reports.Named.{named, cons_ok-both}
use laneq.Reports.Refresh.{refresh-IsWell, refresh-returns}
use laneq.Sql.{select, count}
use laneq.Sql.Order.{Every}
use laneq.Clock.{Env}
use laneq.Action.{◌>>=◌}
use laneq.Core.Invariant.{IsSound, IsWell}
use laneq.Reports.Stats.{
  status_name, same_key, key_before, StatusCount, Stats, status_count, status_tally, consumer_tally,
  count_rows, status_key, consumer_key, stats, stats_from, tally, bump,
}
use laneq.Reports.Tally.{IsKeyOrder, counted, total_count, counted-tally, total_count-tally}

eq_of_status_eq : (s t : Status) → status_eq s t ≡ true → s ≡ t
eq_of_status_eq s t h = ground arith

status_eq_refl : (s : Status) → status_eq s s ≡ true
status_eq_refl s = ground arith

abbrev status_of_name : Text → Option Status
status_of_name name =
    if text_eq name (codes "pending")
    then some pending
    else if text_eq name (codes "taken")
    then some taken
    else if text_eq name (codes "deferred")
    then some deferred
    else if text_eq name (codes "done")
    then some done
    else if text_eq name (codes "dropped")
    then some dropped
    else if text_eq name (codes "parked")
    then some parked
    else none

status_of_name-status_name : (s : Status) → status_of_name (status_name s) ≡ some s
unfolding Text-discrete ℕ_discrete
status_of_name-status_name pending = refl
status_of_name-status_name taken = refl
status_of_name-status_name deferred = refl
status_of_name-status_name done = refl
status_of_name-status_name dropped = refl
status_of_name-status_name parked = refl

status_name_inj : (s t : Status) → status_name s ≡ status_name t → s ≡ t
status_name_inj s t h =
    let same =
      sym (status_of_name-status_name s) ∙ ap status_of_name h ∙ status_of_name-status_name t in
    cc (same)

key_total :
    (p q : ℕ) (a b : Text)
    → (if p == q then text_leb a b else ltb p q) ≡ false
    → (if q == p then text_leb b a else ltb q p) ≡ true
key_total p q a b h = ground (arith, text_leb_total a b)

key_trans :
    (p q r : ℕ) (a b c : Text)
    → (if p == q then text_leb a b else ltb p q) ≡ true
    → (if q == r then text_leb b c else ltb q r) ≡ true
    → (if p == r then text_leb a c else ltb p r) ≡ true
key_trans p q r a b c h k = ground (arith, text_leb_trans a b c)

key_antisym :
    (p q : ℕ) (a b : Text)
    → (if p == q then text_leb a b else ltb p q) ≡ true
    → (if q == p then text_leb b a else ltb q p) ≡ true
    → (p ≡ q) × (a ≡ b)
key_antisym p q a b h k = ground (arith, text_leb_antisym a b)

pair_eq : (p q : ℕ) (s t : Status) → p ≡ q → s ≡ t → ◌≡◌ {A = ℕ × Status} (p, s) (q, t)
pair_eq p q s t h k = cc (h, k)

pub key_order : IsKeyOrder same_key key_before
key_order = record {
  eq_of_same =
      λ a b h. pair_eq a.0 b.0 a.1 b.1 (ground arith) (eq_of_status_eq a.1 b.1 (ground arith));
  same_refl = λ a. ground (arith, status_eq_refl a.1);
  total = λ a b h. key_total a.0 b.0 (status_name a.1) (status_name b.1) h;
  trans =
      λ a b c h k. key_trans a.0 b.0 c.0 (status_name a.1) (status_name b.1) (status_name c.1) h k;
  antisym = λ a b h k.
      let both = key_antisym a.0 b.0 (status_name a.1) (status_name b.1) h k in
      pair_eq a.0 b.0 a.1 b.1 both.0 (status_name_inj a.1 b.1 both.1);
}

pub text_order : IsKeyOrder text_eq text_leb
text_order = record {
  eq_of_same = eq_of_text_eq;
  same_refl = text_eq_refl;
  total = text_leb_total;
  trans = text_leb_trans;
  antisym = text_leb_antisym;
}

named_apart :
    (p q : ℕ) (a b : Text)
    → priority_name p ≡ ok a
    → priority_name q ≡ ok b
    → text_eq a b ≡ (p == q)
unfolding priority_name
named_apart p q a b h k = ground arith

-- The count that the report shows for a priority and a status, 0 where it shows none.
abbrev pub shown_count : Text → Status → List StatusCount → ℕ
shown_count name s [] = 0
shown_count name s (c ∷ cs) =
    if text_eq name c.priority && status_eq s c.status then c.count else shown_count name s cs

abbrev pub sum_counts : List StatusCount → ℕ
sum_counts [] = 0
sum_counts (c ∷ cs) = c.count + sum_counts cs

-- The priority of each entry has a name.
abbrev IsNamed : (ℕ × Status) × ℕ → Type 0
IsNamed entry = entry.0.0 < 3

-- The report of a tally, and what it has of the tally.
pub record IsReport (t : List ((ℕ × Status) × ℕ)) (cs : List StatusCount) : Type 0 where
  pub returned : for_each status_count t ≡ ok cs
  pub each :
      (p : ℕ) (s : Status) (name : Text)
      → priority_name p ≡ ok name
      → shown_count name s cs ≡ counted same_key key_before (p, s) t
  pub all : sum_counts cs ≡ total_count same_key key_before t

IsReport-cons :
    (entry : (ℕ × Status) × ℕ) (t : List ((ℕ × Status) × ℕ)) (cs : List StatusCount) (name : Text)
    → priority_name entry.0.0 ≡ ok name
    → IsReport t cs
    → IsReport (entry ∷ t) (record { priority = name; status = entry.0.1; count = entry.1 } ∷ cs)
unfolding status_count
IsReport-cons entry t cs name e h = record {
  returned = cons_ok-both (rw (status_count, e) refl) h.returned;
  each = λ p s other k.
      let same = named_apart p entry.0.0 other name k e in rw (same, h.each p s other k) refl;
  all = ap (λ n. entry.1 + n) h.all;
}

status_count-IsReport :
    (t : List ((ℕ × Status) × ℕ)) → Every IsNamed t → (cs : List StatusCount) × IsReport t cs
status_count-IsReport [] h = ([], record { returned = refl; each = λ p s name k. refl; all = refl })
status_count-IsReport (entry ∷ t) h =
    let (name, e) = named entry.0.0 h.0 in
    let (cs, r) = status_count-IsReport t h.1 in (_, IsReport-cons entry t cs name e r)

Every-bump :
    (k : ℕ × Status) (t : List ((ℕ × Status) × ℕ))
    → k.0 < 3
    → Every IsNamed t
    → Every IsNamed (bump same_key key_before k t)
Every-bump k [] lt h = (lt, tt)
Every-bump k ((j, n) ∷ rest) lt h = elim (Bool-cases (same_key k j)) [
  | inl s ↦ rw s h
  | inr s ↦ rw s (elim (Bool-cases (key_before k j)) [
    | inl b ↦ rw b (lt, h)
    | inr b ↦ rw b (h.0, Every-bump k rest lt h.1)
  ])
]

Every-tally :
    (rows : List Directive)
    → Every IsSound rows
    → Every IsNamed (tally same_key key_before (map status_key rows))
Every-tally [] h = tt
Every-tally (r ∷ rs) h = Every-bump (status_key r) _ h.0.named_priority (Every-tally rs h.1)

count-map :
    {K : Type 0} (key : Directive → K) (test : K → Bool) (rows : List Directive)
    → count test (map key rows) ≡ count (λ r. test (key r)) rows
count-map key test [] = refl
count-map key test (r ∷ rs) = ap (λ n. if test (key r) then suc n else n) (count-map key test rs)

length-map :
    {K : Type 0} (key : Directive → K) (rows : List Directive) → length (map key rows) ≡ length rows
length-map key [] = refl
length-map key (r ∷ rs) = ap suc (length-map key rs)

-- What `stats` returns, of the directives as they are when it reads them: for each priority and
-- status the number of the directives with both, for each consumer the number of those it has
-- taken, and no entry twice, since the counts add up to the number of the directives.
pub record CountsOf (rows : List Directive) (report : Stats) : Type 0 where
  pub by_status :
      (p : ℕ) (s : Status) (name : Text)
      → priority_name p ≡ ok name
      → shown_count name s report.by_status ≡ count (λ r. same_key (p, s) (status_key r)) rows
  pub all : sum_counts report.by_status ≡ length rows
  pub by_consumer :
      (c : Text)
      → counted text_eq text_leb c report.consumers
        ≡ count (λ r. text_eq c (consumer_key r)) (select (λ r. status_eq r.status taken) rows)
  pub all_taken :
      total_count text_eq text_leb report.consumers
      ≡ length (select (λ r. status_eq r.status taken) rows)

count_rows_lem :
    (rows : List Directive)
    → Every IsSound rows
    → (report : Stats) × (count_rows rows ≡ ok report) × CountsOf rows report
unfolding count_rows status_tally consumer_tally
count_rows_lem rows h =
    let (cs, r) = status_count-IsReport (status_tally rows) (Every-tally rows h) in
    let mine = select (λ r. status_eq r.status taken) rows in
    (
      record { by_status = cs; consumers = consumer_tally rows },
      ap (λ x. stats_from x (consumer_tally rows)) r.returned,
      record {
        by_status = λ p s name e.
            r.each p s name e
            ∙ counted-tally same_key key_before key_order (p, s) (map status_key rows)
            ∙ count-map status_key (same_key (p, s)) rows;
        all =
            r.all
            ∙ total_count-tally same_key key_before (map status_key rows)
            ∙ length-map status_key rows;
        by_consumer = λ c.
            counted-tally text_eq text_leb text_order c (map consumer_key mine)
            ∙ count-map consumer_key (text_eq c) mine;
        all_taken =
            total_count-tally text_eq text_leb (map consumer_key mine)
            ∙ length-map consumer_key mine;
      },
    )

stats-run :
    (env : Env) (db : Db)
    → stats env db ≡ (count_rows (refresh env db).1.directives, (refresh env db).1)
unfolding stats ◌>>=◌
stats-run env db = rw (refresh-returns env db) refl

-- On tables in order `stats` returns, and counts the directives of the database that it leaves.
pub stats-CountsOf :
    (env : Env) (db : Db)
    → IsWell db
    → (report : Stats) × ((stats env db).0 ≡ ok report)
      × CountsOf (stats env db).1.directives report
stats-CountsOf env db w =
    let run = stats-run env db in
    let (report, e, counts) = count_rows_lem _ ((refresh-IsWell env).at db w).sound in
    (report, ap (λ x. x.0) run ∙ e, subst (λ x. CountsOf x.1.directives report) (sym run) counts)
