-- ===== src/JobRegistry/Schedule.antt =====
-- `compute_next_run` of db_collector_os/job_registry.py, the schedule language. The digits that
-- `\d` matches are the ASCII ones here.
use Prim.Native.Char.{code}
use Prim.Native.String.{[], ◌∷◌}
use db_collector_os.Prelude.{
  ℕ, ◌+◌, ◌-◌, ◌*◌, String, Option, none, some, Bool, true, false, ◌&&◌, ◌||◌, leb, ◌=?◌, ◌==◌,
  if◌then◌else◌,
}
use db_collector_os.Clock.{second, now_iso}

-- str.isspace, which str.strip and `\s` go by
abbrev is_space : ℕ → Bool
is_space c =
    (leb 9 c && leb c 13)
    || (leb 28 c && leb c 32)
    || (c =? 0x85)
    || (c =? 0xa0)
    || (c =? 0x1680)
    || (leb 0x2000 c && leb c 0x200a)
    || (c =? 0x2028)
    || (c =? 0x2029)
    || (c =? 0x202f)
    || (c =? 0x205f)
    || (c =? 0x3000)

abbrev is_digit : ℕ → Bool
is_digit c = leb 48 c && leb c 57

lstrip : String → String
lstrip [] = []
lstrip (c ∷ s) = if is_space (code c) then lstrip s else c ∷ s

rstrip : String → String
rstrip [] = []
rstrip (c ∷ s) = let rest = rstrip s in if is_space (code c) && rest == "" then [] else c ∷ rest

-- str.strip
unfoldable pub strip : String → String
unfolding lstrip rstrip
strip s = rstrip (lstrip s)

-- The rest behind a prefix.
unfoldable pub behind : String → String → Option String
behind [] s = some s
behind (c ∷ p) [] = none
behind (c ∷ p) (d ∷ s) = if code c =? code d then behind p s else none

-- `\s+`
spaces : String → Option String
unfolding lstrip
spaces [] = none
spaces (c ∷ s) = if is_space (code c) then some (lstrip s) else none

-- `(\d+)`, the number read so far and whether there is one
digits : ℕ → Bool → String → Option (ℕ × String)
digits n seen [] = if seen then some (n, []) else none
digits n seen (c ∷ s) =
    if is_digit (code c)
    then digits (n * 10 + (code c - 48)) true s
    else if seen
    then some (n, c ∷ s)
    else none

-- `(s|m|h|d)$`, the seconds of the unit
unit_seconds : String → Option ℕ
unit_seconds u =
    if u == "s"
    then some 1
    else if u == "m"
    then some 60
    else if u == "h"
    then some 3600
    else if u == "d"
    then some 86400
    else none

abbrev times_unit : ℕ → Option ℕ → Option ℕ
times_unit n none = none
times_unit n (some m) = some (n * m)

abbrev digits_unit : Option (ℕ × String) → Option ℕ
unfolding unit_seconds
digits_unit none = none
digits_unit (some (n, rest)) = times_unit n (unit_seconds rest)

abbrev spaces_digits : Option String → Option ℕ
unfolding digits
spaces_digits none = none
spaces_digits (some rest) = digits_unit (digits 0 false rest)

abbrev every_spaces : Option String → Option ℕ
unfolding spaces
every_spaces none = none
every_spaces (some rest) = spaces_digits (spaces rest)

-- The match of _SCHEDULE_RE, and the seconds of `n * multiplier`.
unfoldable pub match_every : String → Option ℕ
unfolding behind spaces digits unit_seconds
match_every schedule = every_spaces (behind "@every" schedule)

-- `delta`, in seconds
unfoldable pub interval : String → ℕ
unfolding match_every
interval schedule =
    if schedule == "@hourly"
    then 3600
    else if schedule == "@daily"
    then 86400
    else if schedule == "@weekly"
    then 604800
    else if schedule == "@minutely"
    then 60
    else elim (match_every schedule) [ some n ↦ n | none ↦ 3600 ]

-- `schedule or "@hourly"`
abbrev or_hourly : String → String
or_hourly schedule = if schedule == "" then "@hourly" else schedule

unfoldable pub compute_next_run : String → ℕ → ℕ
unfolding strip interval
compute_next_run schedule base = now_iso (base + interval (strip (or_hourly schedule)) * second)
