-- ===== src/Tests/Deferral.antt =====
-- A time that `defer --until` accepts without leading zeros, and that has passed as a time but not
-- as a text: the directive stays deferred.
use laneq.Common.{◌≡◌, refl, [], some, false, ℕ_discrete}
use laneq.Text.{codes, Text-discrete, text_leb}
use laneq.Clock.{parse_time}
use laneq.Database.{deferred, Directive}
use laneq.Leases.{is_ready}
use laneq.Tests.Samples.{waiting}

abbrev postponed : Directive
postponed = record waiting { status = deferred; not_before = some (codes "2026-6-2T00:00:00Z") }

accepted :
    parse_time (some (codes "2026-6-2T00:00:00Z"))
    ≡ parse_time (some (codes "2026-06-02T00:00:00Z"))
unfolding parse_time Text-discrete ℕ_discrete
accepted = refl

stays_deferred : is_ready (codes "2026-06-20T00:00:00Z") [] postponed ≡ false
unfolding text_leb Text-discrete ℕ_discrete
stays_deferred = refl
