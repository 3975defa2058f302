-- ===== src/Schedule/Cron.antt =====
-- `cron_field_matches`, `cron_expr_matches`, `validate_gateway_cron_expr` and
-- `next_gateway_schedule_run` of resources/scripts/napseer_mcp_server.py. The minutes that follow
-- a time, which datetime computes, are a function.
use nap_cli.Prelude.{
  ℕ, zero, suc, ◌+◌, ◌-◌, ◌*◌, ◌%◌, Bool, true, false, not, ◌&&◌, ◌||◌, Option, none, some, List,
  [], ◌∷◌, if◌then◌else◌, ltb, leb, ◌==◌, length,
}
use nap_cli.Prelude.Result.{Result, ok, raise, ◌>>=◌}
use nap_cli.Schedule.Text.{Text, is_empty, strip, split_on, split_once, words, is_digits, int_after}

abbrev pub comma : ℕ
comma = 44

abbrev pub dash : ℕ
dash = 45

abbrev pub slash : ℕ
slash = 47

abbrev pub is_star : Text → Bool
is_star (c ∷ []) = c == 42
is_star text = false

-- `none` where the source returns False for the whole field.
abbrev pub part_range : Text → Option (Text × Text) → ℕ → ℕ → Option (ℕ × ℕ)
part_range part (some (left, right)) minimum maximum =
    if is_empty part || is_star part
    then some (minimum, maximum)
    else if not (is_digits left) || not (is_digits right)
    then none
    else some (int_after 0 left, int_after 0 right)
part_range part none minimum maximum =
    if is_empty part || is_star part
    then some (minimum, maximum)
    else if is_digits part
    then some (int_after 0 part, int_after 0 part)
    else none

-- The part and its step.
abbrev pub part_step : Text → Option (Text × Text) → Option (Text × ℕ)
part_step part none = some (part, 1)
part_step part (some (range, step)) =
    if not (is_digits step) || (int_after 0 step == 0) then none else some (range, int_after 0 step)

-- The test of a range: `none` where it is not in the field's bounds.
abbrev pub range_matches : ℕ → ℕ → ℕ → ℕ → Option (ℕ × ℕ) → Option Bool
range_matches value minimum maximum step none = none
range_matches value minimum maximum step (some (first, last)) =
    if ltb first minimum || (ltb maximum last || ltb last first)
    then none
    else some (leb first value && (leb value last && ((value - first) % step == 0)))

abbrev pub step_matches : ℕ → ℕ → ℕ → Option (Text × ℕ) → Option Bool
step_matches value minimum maximum none = none
step_matches value minimum maximum (some (part, step)) =
    range_matches value minimum maximum step
      (part_range part (split_once dash part) minimum maximum)

-- One turn of the loop over the parts.
unfoldable pub part_matches : ℕ → ℕ → ℕ → Text → Option Bool
part_matches value minimum maximum part =
    if is_empty part
    then none
    else step_matches value minimum maximum (part_step part (split_once slash part))

abbrev pub or_later : Option Bool → Bool → Bool
or_later none rest = false
or_later (some true) rest = true
or_later (some false) rest = rest

unfoldable pub parts_match : ℕ → ℕ → ℕ → List Text → Bool
parts_match value minimum maximum [] = false
parts_match value minimum maximum (part ∷ parts) =
    or_later (part_matches value minimum maximum (strip part))
      (parts_match value minimum maximum parts)

unfoldable pub cron_field_matches : Text → ℕ → ℕ → ℕ → Bool
cron_field_matches field value minimum maximum =
    if is_empty (strip field)
    then false
    else parts_match value minimum maximum (split_on comma (strip field))

-- What a datetime is asked for; `weekday` is 0 on a Monday.
pub record Moment : Type 0 where
  pub minute : ℕ
  pub hour : ℕ
  pub day : ℕ
  pub month : ℕ
  pub weekday : ℕ

unfoldable pub fields_match : List Text → Moment → Bool
fields_match (a ∷ b ∷ c ∷ d ∷ e ∷ []) moment =
    cron_field_matches a moment.minute 0 59
    && (cron_field_matches b moment.hour 0 23
        && (cron_field_matches c moment.day 1 31
            && (cron_field_matches d moment.month 1 12
                && cron_field_matches e ((moment.weekday + 1) % 7) 0 6)))
fields_match fields moment = false

unfoldable pub cron_expr_matches : Text → Moment → Bool
cron_expr_matches cron_expr moment = fields_match (words cron_expr) moment

pub data ScheduleError : Type 0 where
  not_five_fields never_matches : ScheduleError

-- The minutes of 366 days.
unfoldable pub year : ℕ
year = 366 * 24 * 60

-- The loop over the offsets: the first of them whose minute matches.
unfoldable pub first_match : (ℕ → Bool) → ℕ → ℕ → Option ℕ
first_match matches zero offset = none
first_match matches (suc n) offset =
    let rest = first_match matches n (offset + 1) in if matches offset then some offset else rest

abbrev pub found : Option ℕ → Result ScheduleError (Unit {0})
found none = raise never_matches
found (some offset) = ok tt

unfoldable pub validate_gateway_cron_expr : Text → (ℕ → Moment) → Result ScheduleError (Unit {0})
validate_gateway_cron_expr cron_expr now =
    if length (words cron_expr) == 5
    then found (first_match (λ offset. cron_expr_matches cron_expr (now offset)) year 0)
    else raise not_five_fields

-- The offset, from the minute after the time given, of the run that comes next.
unfoldable pub next_gateway_schedule_run :
    Text → (ℕ → Moment) → (ℕ → Moment) → Result ScheduleError (Option ℕ)
next_gateway_schedule_run cron_expr now cursor = do
  _ ← validate_gateway_cron_expr cron_expr now
  ok (first_match (λ offset. cron_expr_matches cron_expr (cursor offset)) year 0)
