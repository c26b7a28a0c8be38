-- ===== src/Tests/Threading.antt =====
-- Threads of the sample queue, and instances of the theorems on the walks.
use laneq.Common.{◌≡◌, ◌↔◌, refl, [], ◌∷◌, some}
use laneq.Common.Lists.{In}
use laneq.Threads.{thread_root, walk_up, ancestors, walk_down, rounds, thread_rows}
use laneq.Threads.Ascent.{path_down, ancestors_lem}
use laneq.Threads.Descent.{below, walk_down-below}
use laneq.Threads.Membership.{thread_rows-In}
use laneq.Tests.Samples.{queue, queue-IsWell, waiting, urgent}

root_of_2 : thread_root queue.directives 2 ≡ 1
unfolding thread_root
root_of_2 = refl

thread_of_2 : thread_rows queue 2 ≡ waiting ∷ urgent ∷ []
unfolding thread_rows
thread_of_2 = refl

ancestors_of_2 : ancestors queue.directives 2 ≡ waiting ∷ []
unfolding ancestors
ancestors_of_2 = refl

ancestors_lem_example :
    (walk_up 3 queue.directives [] [] 2 ≡ some (path_down 3 queue.directives 2))
    × (ancestors queue.directives 2 ≡ path_down 3 queue.directives 2)
ancestors_lem_example = ancestors_lem queue queue-IsWell 2

walk_down-below_example :
    walk_down (rounds 6 queue.directives 1) queue.directives (1 ∷ []) []
    ≡ (below 6 queue.directives 1, [])
walk_down-below_example = walk_down-below queue queue-IsWell 1

thread_rows-In_example :
    In urgent (thread_rows queue 1)
    ↔ (thread_root queue.directives 2 ≡ thread_root queue.directives 1)
thread_rows-In_example = thread_rows-In queue queue-IsWell 1 urgent refl
