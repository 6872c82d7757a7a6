-- ===== src/Health/Tests.antt =====
-- health/health.go: runs of one checker and its loops.
use fit_go.Base.{
  ◌≡◌, refl, true, false, ◌⊎◌, [], ◌∷◌, none, some, codes, arith, pos, negsuc, equal_fold,
}
use fit_go.Health.Checks.{check, should_skip, connection_check, periodic_interval}
use fit_go.Health.Periodic.{
  checked, System, start_locked, stop_locked, stop_periodic, begin_managed, finish_managed,
  set_phase, decide, update, unfinished, IsFinished, Quiet, quiet, add, Reach, here, next, Managing,
  start, then_quiet, first, new_system,
}
use fit_go.Health.Loops.{IsTracked, IsTracked-Step}
use fit_go.Health.Barrier.{stop_periodic-Waited, finish_managed-superseded}
use fit_go.Health.Single.{managing-single}

-- One loop runs.
abbrev running : System
running = start_locked new_system

-- A stop arrived while the loop was in its first check, which then returned.
abbrev stopped : System
stopped = stop_periodic running

abbrev after_check : System
after_check = set_phase 0 (checked true) stopped

abbrev returned : System
returned = decide 0 true after_check

running-IsTracked : IsTracked running
running-IsTracked =
    IsTracked-Step new_system running (add refl)
      (record { kept = λ i h. absurd (omega arith); reached = λ i h. absurd (omega arith) })

returned-Reach : Reach stopped returned
unfolding start_locked stop_periodic stop_locked set_phase decide update
returned-Reach =
    next (next here (quiet (Quiet.check 0 true (omega arith) first refl)))
      (quiet (Quiet.look 0 true (omega arith) refl refl))

-- The file was not written by the check that was under way.
returned_file : returned.file ≡ false
unfolding start_locked stop_periodic stop_locked set_phase decide update
returned_file = refl

stop_periodic-Waited_example : IsFinished returned 0
unfolding start_locked stop_periodic stop_locked set_phase decide update unfinished
stop_periodic-Waited_example =
    stop_periodic-Waited running returned 0 running-IsTracked returned-Reach (refl, record {})
      (omega arith)

finish_managed-superseded_example :
    finish_managed (record { generation = 0; dones = 0 ∷ [] }) returned
    ≡ record returned { managed = none }
unfolding start_locked
finish_managed-superseded_example =
    finish_managed-superseded running returned (record { generation = 0; dones = 0 ∷ [] })
      (omega arith) returned-Reach

-- Two managed starts one after the other.
abbrev waiting : System
waiting = begin_managed 0 new_system

abbrev managed_once : System
managed_once = finish_managed (record { generation = 0; dones = [] }) waiting

abbrev replacing : System
replacing = begin_managed 0 managed_once

abbrev first_checked : System
first_checked = set_phase 0 (checked true) replacing

abbrev first_returned : System
first_returned = decide 0 true first_checked

abbrev managed_twice : System
managed_twice = finish_managed (record { generation = 0; dones = 0 ∷ [] }) first_returned

managed_twice-Managing : Managing new_system managed_twice
unfolding begin_managed finish_managed start_locked stop_locked set_phase decide update unfinished
managed_twice-Managing =
    then_quiet
      (then_quiet
        (then_quiet
          (then_quiet
            (then_quiet (then_quiet start (Quiet.begin 0 (omega arith) refl refl))
              (Quiet.finish (record { generation = 0; dones = [] }) refl (record {}) refl))
            (Quiet.begin 0 (omega arith) refl refl))
          (Quiet.check 0 true (omega arith) first refl))
        (Quiet.look 0 true (omega arith) refl refl))
      (Quiet.finish (record { generation = 0; dones = 0 ∷ [] }) refl (refl, record {}) refl)

managing-single_example : IsFinished managed_twice 0 ⊎ IsFinished managed_twice 1
unfolding begin_managed finish_managed start_locked stop_locked set_phase decide update unfinished
managing-single_example =
    managing-single managed_twice 0 1 managed_twice-Managing (omega arith) (omega arith)

check_skips_healthy :
    check (codes "down" ∷ [] ∷ codes "slow" ∷ []) ≡ codes "down" ∷ codes "slow" ∷ []
unfolding check
check_skips_healthy = refl

connection_check_skips_healthy :
    connection_check (codes "MongoDB") (codes "TRUE") (codes "main") (some (codes "timeout")) ≡ []
unfolding connection_check should_skip equal_fold
connection_check_skips_healthy = refl

periodic_interval_default : periodic_interval (λ t. some (pos 0)) (negsuc 4) (codes "0") ≡ pos 30
unfolding periodic_interval
periodic_interval_default = refl
