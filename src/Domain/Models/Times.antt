-- ===== src/Domain/Models/Times.antt =====
-- The text of a time in whole seconds sorts as the time does.
use projects_api.Common.{
  ℕ, ◌/◌, ◌%◌, ◌≤◌, ◌<◌, Text, ◌≡◌, refl, Bool, true, not, ◌&&◌, ◌||◌, [], ◌∷◌, ◌++◌, ltb, nat_eq,
  if◌then◌else◌, arith,
}
use projects_api.Json.Print.{text_le}
use projects_api.Domain.Models.{ProjectType, new_project, Datetime, two_digits, isoformat}

abbrev is_leap : ℕ → Bool
is_leap year = nat_eq (year % 4) 0 && (not (nat_eq (year % 100) 0) || nat_eq (year % 400) 0)

unfoldable pub days_in_month : (year : ℕ) → (month : ℕ) → ℕ
days_in_month year month =
    if nat_eq month 2
    then (if is_leap year then 29 else 28)
    else if nat_eq month 4 || nat_eq month 6 || nat_eq month 9 || nat_eq month 11
    then 30
    else 31

-- What `datetime` allows.
pub record IsTime (t : Datetime) : Type 0 where
  pub year : (1 ≤ t.year) × (t.year ≤ 9999)
  pub month : (1 ≤ t.month) × (t.month ≤ 12)
  pub day : (1 ≤ t.day) × (t.day ≤ days_in_month t.year t.month)
  pub hour : t.hour < 24
  pub minute : t.minute < 60
  pub second : t.second < 60

-- What `datetime` allows, with no fraction of a second.
pub record IsWhole (t : Datetime) : Type 0 where
  pub year : (1 ≤ t.year) × (t.year ≤ 9999)
  pub month : (1 ≤ t.month) × (t.month ≤ 12)
  pub day : (1 ≤ t.day) × (t.day ≤ days_in_month t.year t.month)
  pub hour : t.hour < 24
  pub minute : t.minute < 60
  pub second : t.second < 60
  pub whole : t.microsecond ≡ 0

-- Order of times by their fields, the year first.
unfoldable pub time_le : Datetime → Datetime → Bool
unfolding text_le
time_le a b =
    text_le (a.year ∷ a.month ∷ a.day ∷ a.hour ∷ a.minute ∷ a.second ∷ a.microsecond ∷ [])
      (b.year ∷ b.month ∷ b.day ∷ b.hour ∷ b.minute ∷ b.second ∷ b.microsecond ∷ [])

-- A field of two digits is compared first.
two_digits-text_le :
    (m n : ℕ) (s t : Text)
    → m < 100
    → n < 100
    → text_le (two_digits m ++ s) (two_digits n ++ t) ≡ (ltb m n || nat_eq m n && text_le s t)
unfolding text_le
two_digits-text_le m n s t h k = ground arith

-- The year has four.
year-text_le :
    (m n : ℕ) (s t : Text)
    → m < 10000
    → n < 10000
    → text_le
        (two_digits (m / 100) ++ (two_digits m ++ s))
        (two_digits (n / 100) ++ (two_digits n ++ t))
      ≡ (ltb m n || nat_eq m n && text_le s t)
unfolding text_le
year-text_le m n s t h k = ground arith

-- What stands in `isoformat` behind the year, the month and so on, with a further text behind it.
abbrev zone_on : Text → Text
zone_on s = b'+' ∷ b'0' ∷ b'0' ∷ b':' ∷ b'0' ∷ b'0' ∷ s

abbrev second_on : Datetime → Text → Text
second_on t s = two_digits t.second ++ zone_on s

abbrev minute_on : Datetime → Text → Text
minute_on t s = two_digits t.minute ++ b':' ∷ second_on t s

abbrev hour_on : Datetime → Text → Text
hour_on t s = two_digits t.hour ++ b':' ∷ minute_on t s

abbrev day_on : Datetime → Text → Text
day_on t s = two_digits t.day ++ b'T' ∷ hour_on t s

abbrev month_on : Datetime → Text → Text
month_on t s = two_digits t.month ++ b'-' ∷ day_on t s

isoformat-append :
    (t : Datetime) (s : Text)
    → t.microsecond ≡ 0
    → isoformat t ++ s ≡ two_digits (t.year / 100) ++ (two_digits t.year ++ b'-' ∷ month_on t s)
unfolding isoformat
isoformat-append t s whole = rw whole refl

pub same_start : (c : ℕ) (s t : Text) → text_le (c ∷ s) (c ∷ t) ≡ text_le s t
unfolding text_le
same_start c s t = ground arith

same_zone : (s t : Text) → text_le (zone_on s) (zone_on t) ≡ text_le s t
same_zone s t = simp same_start

-- The fields are compared one by one; `last` is the answer where all are equal.
abbrev compared : Datetime → Datetime → Bool → Bool
compared a b last =
    ltb a.year b.year
    || nat_eq a.year b.year
      && (ltb a.month b.month
          || nat_eq a.month b.month
            && (ltb a.day b.day
                || nat_eq a.day b.day
                  && (ltb a.hour b.hour
                      || nat_eq a.hour b.hour
                        && (ltb a.minute b.minute
                            || nat_eq a.minute b.minute
                              && (ltb a.second b.second || nat_eq a.second b.second && last)))))

days_in_month_bounds : (y m : ℕ) → days_in_month y m ≤ 31
unfolding days_in_month
days_in_month_bounds y m = ground arith

module _ (a b : Datetime) (v : IsWhole a) (w : IsWhole b) where
  isoformat-compared :
      (s t : Text) → text_le (isoformat a ++ s) (isoformat b ++ t) ≡ compared a b (text_le s t)
  isoformat-compared s t =
      rw (isoformat-append a s v.whole, isoformat-append b t w.whole)
        (rw
          (
            year-text_le a.year b.year (b'-' ∷ month_on a s) (b'-' ∷ month_on b t) (omega arith)
                (omega arith),
            same_start b'-' (month_on a s) (month_on b t),
            two_digits-text_le a.month b.month (b'-' ∷ day_on a s) (b'-' ∷ day_on b t) (omega arith)
                (omega arith),
            same_start b'-' (day_on a s) (day_on b t),
            two_digits-text_le a.day b.day (b'T' ∷ hour_on a s) (b'T' ∷ hour_on b t)
                (omega (arith, days_in_month_bounds a.year a.month))
                (omega (arith, days_in_month_bounds b.year b.month)),
            same_start b'T' (hour_on a s) (hour_on b t),
            two_digits-text_le a.hour b.hour (b':' ∷ minute_on a s) (b':' ∷ minute_on b t)
                (omega arith) (omega arith),
            same_start b':' (minute_on a s) (minute_on b t),
            two_digits-text_le a.minute b.minute (b':' ∷ second_on a s) (b':' ∷ second_on b t)
                (omega arith) (omega arith),
            same_start b':' (second_on a s) (second_on b t),
            two_digits-text_le a.second b.second (zone_on s) (zone_on t) (omega arith)
                (omega arith),
            same_zone s t,
          )
          refl)

  pub time_le-compared : time_le a b ≡ compared a b true
  unfolding time_le
  time_le-compared = rw (v.whole, w.whole) (ground arith)

  -- The text of an earlier time is before that of a later one, whatever stands behind the two.
  pub time_le-isoformat :
      (s t : Text) → text_le (isoformat a ++ s) (isoformat b ++ t) ≡ true → time_le a b ≡ true
  time_le-isoformat s t h = ground (arith, isoformat-compared s t, time_le-compared)

-- A new project has a time in whole seconds.
pub new_project-IsWhole :
    (name : Text) (type : ProjectType) (owner_id : Text) (now : Datetime) (hex : Text)
    → IsTime now
    → IsWhole (new_project name type owner_id now hex).created_at
unfolding new_project
new_project-IsWhole name type owner_id now hex v = record {
  year = v.year;
  month = v.month;
  day = v.day;
  hour = v.hour;
  minute = v.minute;
  second = v.second;
  whole = refl;
}
