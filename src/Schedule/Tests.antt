-- ===== src/Schedule/Tests.antt =====
-- Runs of the schedules at concrete inputs.
use nap_cli.Prelude.{ℕ, ◌/◌, ◌%◌, ◌≡◌, refl, true, false, some, [], ◌∷◌}
use nap_cli.Schedule.Text.{
  Text, is_space, trim_left, trim_right, strip, split_on, split_once, words_from, words, all_digits,
  is_digits, int_after,
}
use nap_cli.Schedule.Cron.{
  Moment, cron_expr_matches, next_gateway_schedule_run, part_matches, parts_match, fields_match,
  cron_field_matches, first_match,
}
use nap_cli.Schedule.Next.{IsNext, next_gateway_schedule_run-IsNext}

-- The minutes of one day, over and over.
abbrev clock : ℕ → Moment
clock n = record { minute = n % 60; hour = n / 60 % 24; day = 1; month = 1; weekday = 0 }

-- "*/15 2-4 * * *"
abbrev quarters : Text
quarters = 42 ∷ 47 ∷ 49 ∷ 53 ∷ 32 ∷ 50 ∷ 45 ∷ 52 ∷ 32 ∷ 42 ∷ 32 ∷ 42 ∷ 32 ∷ 42 ∷ []

quarters_at_three : cron_expr_matches quarters (clock 195) ≡ true
unfolding cron_expr_matches fields_match words words_from is_space cron_field_matches strip
    trim_left trim_right parts_match split_on part_matches split_once is_digits all_digits int_after
quarters_at_three = refl

quarters_at_five : cron_expr_matches quarters (clock 300) ≡ false
unfolding cron_expr_matches fields_match words words_from is_space cron_field_matches strip
    trim_left trim_right parts_match split_on part_matches split_once is_digits all_digits int_after
quarters_at_five = refl

quarters_first : first_match (λ n. cron_expr_matches quarters (clock n)) 200 0 ≡ some 120
unfolding first_match cron_expr_matches fields_match words words_from is_space cron_field_matches
    strip trim_left trim_right parts_match split_on part_matches split_once is_digits all_digits
    int_after
quarters_first = refl

next_gateway_schedule_run-IsNext_example :
    IsNext quarters clock clock (next_gateway_schedule_run quarters clock clock)
next_gateway_schedule_run-IsNext_example = next_gateway_schedule_run-IsNext quarters clock clock
