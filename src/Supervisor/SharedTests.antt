-- ===== src/Supervisor/SharedTests.antt =====
-- Threads of the supervisor that run in between each other, at concrete requests.
use nap_cli.Prelude.{◌≡◌, refl, true, none, some, arith, ℕ_eq, list_eq}
use nap_cli.Prelude.Dict.{lookup, has, insert}
use nap_cli.Supervisor.Message.{request_key, request_id}
use nap_cli.Supervisor.Worker.{new_worker}
use nap_cli.Supervisor.Invariant.{IsWorker}
use nap_cli.Supervisor.Sections.{
  Shared, new_shared, launch_section, admit_section, check_section, finish_section, clear_section,
  fail_section,
}
use nap_cli.Supervisor.Interleaved.{
  Reach, begins, next, launches, admits, checks, finishes, clears, fails, IsShared,
}
use nap_cli.Supervisor.Anytime.{Reach-IsShared, Reach-IsWorker}
use nap_cli.Supervisor.Tests.{call_tool, config, surroundings, asked, seven}

abbrev started_up : Shared
started_up = launch_section surroundings.spawn new_shared

started_up-Reach : Reach config started_up
unfolding new_worker
started_up-Reach = next begins (launches new_shared surroundings.spawn refl refl)

-- A `submit` has read the generation; a timer stops the process before the request is in the table.
abbrev orphaned : Shared
orphaned = admit_section config call_tool 1 (fail_section 1 (clear_section started_up))

orphaned-Reach : Reach config orphaned
unfolding launch_section clear_section fail_section new_worker
orphaned-Reach =
    next
      (next (next started_up-Reach (clears started_up refl))
        (fails (clear_section started_up) 1 refl))
      (admits (fail_section 1 (clear_section started_up)) call_tool 1 (omega arith))

orphaned-has_entry :
    (orphaned.worker.process ≡ none)
    × (lookup (request_key config seven) orphaned.worker.pending ≡ some 0)
unfolding launch_section clear_section fail_section admit_section new_worker lookup has insert
    request_key request_id
orphaned-has_entry = (refl, refl)

Reach-IsShared_example : IsShared 1 orphaned
Reach-IsShared_example = Reach-IsShared config orphaned-Reach

abbrev asking : Shared
asking = admit_section config call_tool 1 started_up

abbrev told : Shared
told = finish_section 0 true (check_section asked 0 true asking)

told-Reach : Reach config told
unfolding launch_section admit_section check_section new_worker has insert request_key request_id
told-Reach =
    next
      (next (next started_up-Reach (admits started_up call_tool 1 (omega arith)))
        (checks asking 0 asked true refl refl))
      (finishes (check_section asked 0 true asking) 0 true refl)

Reach-IsWorker_example : IsWorker 1 told.worker
unfolding launch_section admit_section check_section finish_section new_worker has insert
    request_key request_id lookup
Reach-IsWorker_example = Reach-IsWorker config told-Reach refl (λ key ref h. ground arith)
