-- ===== src/Cron/Lines.antt =====
-- Whole schedules: five fields with a space between them.
use korder.Prelude.{
  ℕ, ◌≡◌, ◌≢◌, refl, Bool, not, ◌&&◌, ◌||◌, Option, none, some, List, [], ◌∷◌, ◌++◌, arith, is_some,
}
use korder.Prelude.Text.{Text}
use korder.Prelude.Strings.{is_space, fields, NoSpace, fields-word, fields-last}
use korder.Prelude.Decimal.{print_ℕ, print_ℕ-ne-nil}
use korder.Cron.{
  Now, CronError, FieldError, ok, named, validate_fields, validate_schedule, run_fields,
  is_time_to_run, first_error,
}
use korder.Cron.Field.{
  Field, any, range, step, values, print_values, print_field, fires, in_bounds, IsSane,
}
use korder.Cron.Match.{print_ℕ_no_space, matches_field-print_field}
use korder.Cron.Validate.{validate_field-print_field}

pub record Line : Type 0 where
  pub minute : Field
  pub hour : Field
  pub day : Field
  pub month : Field
  pub weekday : Field

unfoldable pub print_line : Line → Text
print_line l =
    print_field l.minute
    ++ 32
      ∷ (print_field l.hour
          ++ 32 ∷ (print_field l.day ++ 32 ∷ (print_field l.month ++ 32 ∷ print_field l.weekday)))

abbrev pub IsSaneLine : Line → Type 0
IsSaneLine l = IsSane l.minute × IsSane l.hour × IsSane l.day × IsSane l.month × IsSane l.weekday

-- All five fields fire at the clock reading.
abbrev pub line_fires : Line → Now → Bool
line_fires l now =
    fires l.minute now.minute
    && fires l.hour now.hour
    && fires l.day now.day
    && fires l.month now.month
    && fires l.weekday now.weekday

NoSpace-append : (s t : Text) → NoSpace s → NoSpace t → NoSpace (s ++ t)
NoSpace-append [] t hs ht = ht
NoSpace-append (c ∷ s) t (hc, hs) ht = (hc, NoSpace-append s t hs ht)

print_values-NoSpace : (n : ℕ) (ns : List ℕ) → NoSpace (print_values n ns)
unfolding print_field
print_values-NoSpace n [] = print_ℕ_no_space n
print_values-NoSpace n (m ∷ ms) =
    NoSpace-append (print_ℕ n) _ (print_ℕ_no_space n)
      ((unfold is_space in refl), print_values-NoSpace m ms)

print_field-NoSpace : (f : Field) → NoSpace (print_field f)
unfolding print_field is_space
print_field-NoSpace any = (refl, tt)
print_field-NoSpace (range a b) =
    NoSpace-append (print_ℕ a) _ (print_ℕ_no_space a) (refl, print_ℕ_no_space b)
print_field-NoSpace (step n) = (refl, (refl, print_ℕ_no_space n))
print_field-NoSpace (values n ns) = print_values-NoSpace n ns

append-ne-nil : (s t : Text) → s ≢ [] → s ++ t ≢ []
append-ne-nil [] t h e = h refl
append-ne-nil (c ∷ s) t h e = cc

print_values-ne-nil : (n : ℕ) (ns : List ℕ) → print_values n ns ≢ []
unfolding print_field
print_values-ne-nil n [] = print_ℕ-ne-nil n
print_values-ne-nil n (m ∷ ms) = append-ne-nil (print_ℕ n) _ (print_ℕ-ne-nil n)

print_field-ne-nil : (f : Field) → print_field f ≢ []
unfolding print_field
print_field-ne-nil any e = cc
print_field-ne-nil (range a b) e = append-ne-nil (print_ℕ a) _ (print_ℕ-ne-nil a) e
print_field-ne-nil (step n) e = cc
print_field-ne-nil (values n ns) e = print_values-ne-nil n ns e

first_field : (f : Field) (s : Text) → fields (print_field f ++ 32 ∷ s) ≡ print_field f ∷ fields s
first_field f s = fields-word (print_field f) s (print_field-ne-nil f) (print_field-NoSpace f)

fields-print_line :
    (l : Line)
    → fields (print_line l)
      ≡ print_field l.minute
        ∷ print_field l.hour
        ∷ print_field l.day
        ∷ print_field l.month
        ∷ print_field l.weekday
        ∷ []
unfolding print_line
fields-print_line l = rw (first_field l.minute) (
    rw (first_field l.hour) (
      rw (first_field l.day) (
        rw (first_field l.month) (
          rw (
            fields-last (print_field l.weekday) (print_field-ne-nil l.weekday)
              (print_field-NoSpace l.weekday))))))

print_line-ne-nil : (l : Line) → print_line l ≢ []
unfolding print_line
print_line-ne-nil l = append-ne-nil (print_field l.minute) _ (print_field-ne-nil l.minute)

is_time_to_run_of_fields :
    (now : Now) (s : Text) → s ≢ [] → is_time_to_run now s ≡ run_fields now (fields s)
unfolding is_time_to_run
is_time_to_run_of_fields now [] h = absurd (h refl)
is_time_to_run_of_fields now (c ∷ s) h = refl

validate_schedule_of_fields : (s : Text) → s ≢ [] → validate_schedule s ≡ validate_fields (fields s)
unfolding validate_schedule
validate_schedule_of_fields [] h = absurd (h refl)
validate_schedule_of_fields (c ∷ s) h = refl

-- A schedule that is the print of five fields runs at a clock reading exactly when every field
-- fires there, and the call returns no error, provided that the numbers fit Go's int and no step is
-- 0.
pub is_time_to_run-print_line :
    (now : Now) (l : Line)
    → IsSaneLine l
    → is_time_to_run now (print_line l) ≡ ok (line_fires l now)
is_time_to_run-print_line now l (m, h, d, mo, w) =
    rw (is_time_to_run_of_fields now (print_line l) (print_line-ne-nil l)) (
      rw (fields-print_line l) (
        unfold run_fields in
        rw (
          matches_field-print_field l.minute now.minute 0 59 m,
          matches_field-print_field l.hour now.hour 0 23 h,
          matches_field-print_field l.day now.day 1 31 d,
          matches_field-print_field l.month now.month 1 12 mo,
          matches_field-print_field l.weekday now.weekday 0 6 w,
        )))

abbrev pub line_in_bounds : Line → Bool
line_in_bounds l =
    in_bounds 0 59 l.minute
    && in_bounds 0 23 l.hour
    && in_bounds 1 31 l.day
    && in_bounds 1 12 l.month
    && in_bounds 0 6 l.weekday

is_some-named : (t : Text) (e : Option FieldError) → is_some (named t e) ≡ is_some e
unfolding named
is_some-named t none = refl
is_some-named t (some e) = refl

is_some-first_error :
    (a b : Option CronError) → is_some (first_error a b) ≡ (is_some a || is_some b)
is_some-first_error none b = refl
is_some-first_error (some e) b = refl

-- A schedule that is the print of five fields is refused exactly when one of the fields has a
-- number out of its bounds or a reversed range, provided that the numbers fit Go's int and no step
-- is 0.
pub validate_schedule-print_line :
    (l : Line) → IsSaneLine l → is_some (validate_schedule (print_line l)) ≡ not (line_in_bounds l)
validate_schedule-print_line l (m, h, d, mo, w) =
    rw (validate_schedule_of_fields (print_line l) (print_line-ne-nil l)) (
      rw (fields-print_line l) (
        unfold validate_fields in
        simp (is_some-first_error, is_some-named)
          (ground (
            arith,
            validate_field-print_field l.minute 0 59 m,
            validate_field-print_field l.hour 0 23 h,
            validate_field-print_field l.day 1 31 d,
            validate_field-print_field l.month 1 12 mo,
            validate_field-print_field l.weekday 0 6 w,
          ))))

run_valid_fields :
    (now : Now) (parts : List Text)
    → validate_fields parts ≡ none
    → (b : Bool) × (run_fields now parts ≡ ok b)
unfolding validate_fields run_fields
run_valid_fields now (m ∷ h ∷ d ∷ mo ∷ w ∷ []) v = (_, refl)
run_valid_fields now [] v = cc
run_valid_fields now (m ∷ []) v = cc
run_valid_fields now (m ∷ h ∷ []) v = cc
run_valid_fields now (m ∷ h ∷ d ∷ []) v = cc
run_valid_fields now (m ∷ h ∷ d ∷ mo ∷ []) v = cc
run_valid_fields now (m ∷ h ∷ d ∷ mo ∷ w ∷ x ∷ rest) v = cc

-- On a schedule that validation accepts, at any clock reading, the run test gives an answer and no
-- error.
pub validate_schedule-is_time_to_run :
    (now : Now) (s : Text) → validate_schedule s ≡ none → (b : Bool) × (is_time_to_run now s ≡ ok b)
unfolding validate_schedule is_time_to_run
validate_schedule-is_time_to_run now [] v = cc
validate_schedule-is_time_to_run now (c ∷ s) v = run_valid_fields now (fields (c ∷ s)) v
