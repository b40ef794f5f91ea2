-- ===== src/Cron/Tests.antt =====
-- Runs of the cron functions, and the theorems at concrete inputs.
use korder.Prelude.{ℕ, ◌≤◌, ◌≡◌, refl, true, none, [], ◌∷◌, arith}
use korder.Prelude.Text.{codes, text_eq}
use korder.Prelude.Strings.{split, contains, trim_space, fields}
use korder.Prelude.Decimal.{atoi, print_ℕ}
use korder.Cron.{Now, ok, err, matches_field, validate_field, is_time_to_run, wrong_field_count}
use korder.Cron.Field.{any, range, step, values, print_field}
use korder.Cron.Fires.{validate_field-fires}
use korder.Cron.Lines.{Line, print_line, is_time_to_run-print_line}

abbrev monday_nine : Now
monday_nine = record { minute = 0; hour = 9; day = 24; month = 11; weekday = 1 }

abbrev office_hours : Line
office_hours = record {
  minute = step 15;
  hour = range 9 17;
  day = any;
  month = any;
  weekday = values 1 (3 ∷ 5 ∷ []);
}

office_hours_print : print_line office_hours ≡ codes "*/15 9-17 * * 1,3,5"
unfolding print_line print_field print_ℕ
office_hours_print = refl

runs_at_nine : is_time_to_run monday_nine (codes "*/15 9-17 * * 1,3,5") ≡ ok true
unfolding is_time_to_run fields matches_field split contains trim_space atoi text_eq
runs_at_nine = refl

four_fields : is_time_to_run monday_nine (codes "0 9 * *") ≡ err wrong_field_count
unfolding is_time_to_run fields
four_fields = refl

-- The step 32 is accepted for the day of the month, and no day is a multiple of it.
day_step_accepted : validate_field (codes "*/32") 1 31 ≡ none
unfolding validate_field split contains atoi text_eq
day_step_accepted = refl

validate_field-fires_example :
    (v : ℕ) × (0 ≤ v) × (v ≤ 6) × (matches_field (codes "2-4") v 0 6 ≡ true)
unfolding validate_field split contains atoi text_eq
validate_field-fires_example = validate_field-fires (codes "2-4") 0 6 (omega arith) refl refl

is_time_to_run-print_line_example : is_time_to_run monday_nine (print_line office_hours) ≡ ok true
is_time_to_run-print_line_example = is_time_to_run-print_line monday_nine office_hours (omega arith)
