-- ===== src/Cron.antt =====
-- internal/scheduler/cron.go: cron expressions of five fields, matched against a clock reading and
-- validated. Go's `int`s that a clock yields are never negative, so they are natural numbers; what
-- the clock reads is an argument. A time is a number of nanoseconds.
pub mod Field
pub mod Match
pub mod Validate
pub mod Fires
pub mod Lines
mod Tests
use korder.Prelude.{
  ℕ, zero, suc, ◌%◌, Bool, true, false, ◌&&◌, ◌||◌, Option, none, some, List, [], ◌∷◌, length,
  ==_iff, ◌==◌, if◌then◌else◌,
}
use korder.Prelude.Int.{ℤ, pos, ◌+ℤ◌, ltb_ℤ, leb_ℤ, eqb_ℤ}
use korder.Prelude.Text.{Text, codes, text_eq}
use korder.Prelude.Strings.{split, contains, trim_space, fields}
use korder.Prelude.Decimal.{atoi}

-- The errors of `validateField`.
pub data FieldError : Type 0 where
  bad_range_format bad_range_values range_out_of_bounds : FieldError
  bad_step_format step_without_star bad_step_value : FieldError
  bad_value : Text → FieldError
  value_out_of_bounds : ℤ → FieldError

-- The errors of the methods that take a whole schedule.
pub data CronError : Type 0 where
  empty_schedule wrong_field_count : CronError
  invalid_field : Text → FieldError → CronError

pub data CronResult (A : Type 0) : Type 0 where
  ok : A → CronResult A
  err : CronError → CronResult A

-- What `time.Now()` yields, by field.
pub record Now : Type 0 where
  pub minute : ℕ
  pub hour : ℕ
  pub day : ℕ
  pub month : ℕ
  pub weekday : ℕ

pub record Schedule : Type 0 where
  pub schedule : Text

abbrev pub minute_ns : ℤ
minute_ns = pos 60000000000

-- Schedule.Next
pub next : Schedule → ℤ → ℤ
next s after = after +ℤ minute_ns

between : ℕ → Option ℤ → Option ℤ → Bool
between value (some start) (some end) = leb_ℤ start (pos value) && leb_ℤ (pos value) end
between value _ _ = false

match_range : ℕ → List Text → Bool
unfolding between
match_range value (a ∷ b ∷ []) = between value (atoi a) (atoi b)
match_range value _ = false

divides : ℕ → Option ℤ → Bool
divides value (some (pos (suc step))) = value % suc step == 0
divides value _ = false

match_step : ℕ → List Text → Bool
unfolding divides
match_step value (a ∷ b ∷ []) = text_eq a (codes "*") && divides value (atoi b)
match_step value _ = false

match_single : ℕ → Option ℤ → Bool
match_single value (some val) = eqb_ℤ val (pos value)
match_single value none = false

match_list : ℕ → List Text → Bool
unfolding match_single
match_list value [] = false
match_list value (v ∷ vs) = match_single value (atoi (trim_space v)) || match_list value vs

-- CronScheduler.matchesField; it takes the bounds and does not read them.
unfoldable pub matches_field : Text → ℕ → ℕ → ℕ → Bool
unfolding match_range match_step match_list match_single
matches_field field value min max =
    if text_eq field (codes "*")
    then true
    else if contains b'-' field
    then match_range value (split b'-' field)
    else if contains b'/' field
    then match_step value (split b'/' field)
    else if contains b',' field
    then match_list value (split b',' field)
    else match_single value (atoi field)

check_bounds : ℕ → ℕ → Option ℤ → Option ℤ → Option FieldError
check_bounds min max (some start) (some end) =
    if ltb_ℤ start (pos min)
      || ltb_ℤ (pos max) start
      || ltb_ℤ end (pos min)
      || ltb_ℤ (pos max) end
      || ltb_ℤ end start
    then some range_out_of_bounds
    else none
check_bounds min max _ _ = some bad_range_values

check_range : ℕ → ℕ → List Text → Option FieldError
unfolding check_bounds
check_range min max (a ∷ b ∷ []) = check_bounds min max (atoi a) (atoi b)
check_range min max _ = some bad_range_format

is_positive : Option ℤ → Bool
is_positive (some (pos (suc step))) = true
is_positive _ = false

check_step : List Text → Option FieldError
unfolding is_positive
check_step (a ∷ b ∷ []) =
    if text_eq a (codes "*")
    then (if is_positive (atoi b) then none else some bad_step_value)
    else some step_without_star
check_step _ = some bad_step_format

check_single : Text → ℕ → ℕ → Option ℤ → Option FieldError
check_single v min max (some val) =
    if ltb_ℤ val (pos min) || ltb_ℤ (pos max) val then some (value_out_of_bounds val) else none
check_single v min max none = some (bad_value v)

-- The first error of two checks in a row.
abbrev pub first_error {ℓ} : {E : Type ℓ} → Option E → Option E → Option E
first_error (some e) rest = some e
first_error none rest = rest

check_list : ℕ → ℕ → List Text → Option FieldError
unfolding check_single
check_list min max [] = none
check_list min max (v ∷ vs) =
    first_error (check_single v min max (atoi (trim_space v))) (check_list min max vs)

-- CronScheduler.validateField; `none` is Go's nil.
unfoldable pub validate_field : Text → ℕ → ℕ → Option FieldError
unfolding check_range check_step check_list check_single
validate_field field min max =
    if text_eq field (codes "*")
    then none
    else if contains b'-' field
    then check_range min max (split b'-' field)
    else if contains b'/' field
    then check_step (split b'/' field)
    else if contains b',' field
    then check_list min max (split b',' field)
    else check_single field min max (atoi field)

named : Text → Option FieldError → Option CronError
named name none = none
named name (some e) = some (invalid_field name e)

-- The loop over the table of the five fields.
validate_fields : List Text → Option CronError
unfolding named
validate_fields (m ∷ h ∷ d ∷ mo ∷ w ∷ []) =
    first_error (named (codes "minute") (validate_field m 0 59)) (
      first_error (named (codes "hour") (validate_field h 0 23)) (
        first_error (named (codes "day") (validate_field d 1 31)) (
          first_error (named (codes "month") (validate_field mo 1 12))
            (named (codes "weekday") (validate_field w 0 6)))))
validate_fields _ = some wrong_field_count

-- CronScheduler.ValidateSchedule
unfoldable pub validate_schedule : Text → Option CronError
unfolding validate_fields
validate_schedule [] = some empty_schedule
validate_schedule (c ∷ s) = validate_fields (fields (c ∷ s))

-- CronScheduler.ParseSchedule
pub parse_schedule : Text → CronResult Schedule
parse_schedule s = elim (validate_schedule s) [
  | some e ↦ err e
  | none ↦ ok (record { schedule = s })
]

run_fields : Now → List Text → CronResult Bool
run_fields now (m ∷ h ∷ d ∷ mo ∷ w ∷ []) = ok (
    matches_field m now.minute 0 59
    && matches_field h now.hour 0 23
    && matches_field d now.day 1 31
    && matches_field mo now.month 1 12
    && matches_field w now.weekday 0 6)
run_fields now _ = err wrong_field_count

-- CronScheduler.IsTimeToRun, at the clock reading `now`.
unfoldable pub is_time_to_run : Now → Text → CronResult Bool
unfolding run_fields
is_time_to_run now [] = err empty_schedule
is_time_to_run now (c ∷ s) = run_fields now (fields (c ∷ s))

-- CronScheduler.NextRunTime, at the clock reading `now`.
pub next_run_time : ℤ → Text → CronResult ℤ
next_run_time now [] = err empty_schedule
next_run_time now (c ∷ s) = ok (now +ℤ minute_ns)
