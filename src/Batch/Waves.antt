-- ===== src/Batch/Waves.antt =====
-- What running a wave of actions leaves.
use nap_cli.Prelude.{◌≤◌, ◌≡◌, true, List, [], ◌∷◌, arith, length, string_eq, contains}
use nap_cli.Batch.Plan.{Action, Plan}
use nap_cli.Batch.Schedule.{Call, Run, status_of, conclude, run_mutation, conclude_all, run_reads}
use nap_cli.Batch.Progress.{length-remove, length-remove_lt, IsRun, conclude-IsRun}
use nap_cli.Batch.Ready.{Shrinks}

-- Running the actions of a list keeps the invariant, and no more are pending.
pub conclude_all-IsRun :
    (plan : Plan) (call : Action → Call) (all reads : List Action) (s : Run)
    → IsRun all s
    → IsRun all (conclude_all plan call reads s)
      × (length (conclude_all plan call reads s).pending ≤ length s.pending)
conclude_all-IsRun plan call all [] s v = (v, omega arith)
conclude_all-IsRun plan call all (a ∷ reads) s v =
    let (v', le) =
      conclude_all-IsRun plan call all reads (conclude a (status_of (call a)) s)
        (conclude-IsRun all a _ s v) in
    (v', omega (arith, le, length-remove a.id s.pending))

pub run_mutation-Shrinks :
    (plan : Plan) (call : Action → Call) (a : Action) (s : Run)
    → IsRun plan.actions s
    → contains s.pending a.id ≡ true
    → Shrinks plan.actions s (run_mutation plan call a s)
unfolding run_mutation
run_mutation-Shrinks plan call a s v p =
    let v' = conclude-IsRun plan.actions a (status_of (call a)) s v in
    (record { within = v'.within; covered = v'.covered }, length-remove_lt a.id s.pending p)

pub run_reads-Shrinks :
    (plan : Plan) (call : Action → Call) (a : Action) (reads : List Action) (s : Run)
    → IsRun plan.actions s
    → contains s.pending a.id ≡ true
    → Shrinks plan.actions s (run_reads plan call (a ∷ reads) s)
unfolding run_reads
run_reads-Shrinks plan call a reads s v p =
    let (v', le) =
      conclude_all-IsRun plan call plan.actions reads (conclude a (status_of (call a)) s)
        (conclude-IsRun plan.actions a _ s v) in
    (
      record { within = v'.within; covered = v'.covered },
      omega (arith, le, length-remove_lt a.id s.pending p),
    )
