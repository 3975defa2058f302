-- ===== src/Runtime/Weights.antt =====
-- The messages that the runtime has sent, and those that may follow, counted.
use nap_cli.Prelude.{
  ℕ, zero, suc, ◌+◌, ◌≤◌, ◌≡◌, refl, ap, ◌∙◌, Bool, true, false, Option, none, some, List, [], ◌∷◌,
  ◌++◌, if◌then◌else◌, arith, length, length-append, get_elem?, modify, ℕ_eq, list_eq,
}
use nap_cli.Prelude.Int.{negsuc}
use nap_cli.Prelude.Json.{Json, null, obj, get}
use nap_cli.Runtime.Dispatch.{
  Stage, queued, running, finished, dropped, Request, Runtime, Setting, finish, started_stage,
  dropped_stage, drop_request, shut, drop_one, rpc_error, emit, emit_some,
}
use nap_cli.Runtime.Table.{some_inj}
use nap_cli.Runtime.Steps.{Steps, none_yet, dispatches, begins, finishes, shuts, drops}

unfoldable pub weight : Stage → ℕ
weight queued = 1
weight running = 1
weight finished = 0
weight dropped = 0

-- The requests that wait for a thread or are run by one.
unfoldable pub waiting : List Request → ℕ
unfolding weight
waiting [] = 0
waiting (q ∷ objects) = weight q.stage + waiting objects

unfoldable pub asks_id : Option Json → ℕ
asks_id none = 0
asks_id (some id) = 1

-- A message that may be answered: one with an id, or none at all.
unfoldable pub asks : Json → ℕ
unfolding asks_id
asks (obj message) = asks_id (get "id" message)
asks message = 1

-- The messages that may be answered among those dispatched.
unfoldable pub asked : {c : Setting} {first r : Runtime} → Steps c first r → ℕ
unfolding asks
asked none_yet = 0
asked (dispatches message s) = asks message + asked s
asked (begins ref s) = asked s
asked (finishes ref outcome s) = asked s
asked (shuts s) = asked s
asked (drops ref s) = asked s

-- What has been sent and what may still be.
unfoldable pub answers : Runtime → ℕ
unfolding waiting
answers r = length r.sent + waiting r.objects

pub waiting-modify :
    (f : Request → Request) (i : ℕ) (objects : List Request)
    → ((q : Request) → weight (f q).stage ≤ weight q.stage)
    → waiting (modify f i objects) ≤ waiting objects
unfolding waiting
waiting-modify f i [] h = omega arith
waiting-modify f zero (q ∷ objects) h = omega (arith, h q)
waiting-modify f (suc i) (q ∷ objects) h = omega (arith, waiting-modify f i objects h)

pub waiting-finish :
    (i : ℕ) (objects : List Request) (q : Request)
    → get_elem? objects i ≡ some q
    → q.stage ≡ running
    → suc (waiting (modify finish i objects)) ≡ waiting objects
unfolding waiting weight
waiting-finish i [] q at e = absurd (none≢some at)
  where
    none≢some : ◌≡◌ {A = Option Request} none (some q) → ⊥
    none≢some e = cc
waiting-finish zero (p ∷ objects) q at e =
    let same : p ≡ q = some_inj p q at in
    omega (arith, ap weight (ap (λ (o : Request). o.stage) same ∙ e))
waiting-finish (suc i) (p ∷ objects) q at e = omega (arith, waiting-finish i objects q at e)

pub waiting-append :
    (objects : List Request) (q : Request)
    → waiting (objects ++ q ∷ []) ≡ waiting objects + weight q.stage
unfolding waiting
waiting-append [] q = omega arith
waiting-append (p ∷ objects) q = omega (arith, waiting-append objects q)

pub started : (s : Stage) → weight (started_stage s) ≤ weight s
unfolding weight
started queued = omega arith
started running = omega arith
started finished = omega arith
started dropped = omega arith

pub stopped : (s : Stage) → weight (dropped_stage s) ≤ weight s
unfolding weight
stopped queued = omega arith
stopped running = omega arith
stopped finished = omega arith
stopped dropped = omega arith

pub if-le :
    (b : Bool) (x y : Runtime) (n : ℕ)
    → answers x ≤ n
    → answers y ≤ n
    → answers (if b then x else y) ≤ n
if-le true x y n s t = s
if-le false x y n s t = t

pub answers-emit : (message : Json) (r : Runtime) → answers (emit message r) ≡ suc (answers r)
unfolding answers
answers-emit message r = omega (arith, length-append r.sent (message ∷ []))

pub emit_some-le : (o : Option Json) (r : Runtime) → answers (emit_some o r) ≤ suc (answers r)
emit_some-le none r = omega arith
emit_some-le (some message) r = omega (arith, answers-emit message r)

pub objects-le :
    (r s : Runtime)
    → s.sent ≡ r.sent
    → waiting s.objects ≤ waiting r.objects
    → answers s ≤ answers r
unfolding answers
objects-le r s e h = omega (arith, ap length e, h)

pub entered :
    (r s : Runtime)
    → s.sent ≡ r.sent
    → waiting s.objects ≡ waiting r.objects + weight queued
    → answers s ≤ suc (answers r)
unfolding answers weight
entered r s e h = omega (arith, ap length e, h)

abbrev pub invalid : Json
invalid = rpc_error null (negsuc 32599) "Invalid Request" none

pub rejected : (s r : Runtime) → s ≡ emit invalid r → answers s ≤ 1 + answers r
rejected s r e = omega (arith, ap answers e, answers-emit invalid r)

pub entry_closed :
    (s r : Runtime)
    → s.sent ≡ r.sent
    → suc (waiting s.objects) ≡ waiting r.objects
    → suc (answers s) ≡ answers r
unfolding answers
entry_closed s r e h = omega (arith, ap length e, h)

pub shut-le : (r : Runtime) → answers (shut r) ≤ answers r
unfolding answers shut
shut-le r = omega arith

pub drop_one-le : (ref : ℕ) (r : Runtime) → answers (drop_one ref r) ≤ answers r
unfolding drop_one
drop_one-le ref r =
    objects-le r (record r { objects = modify drop_request ref r.objects }) refl
      (waiting-modify drop_request ref r.objects (λ p. stopped p.stage))
