-- ===== src/Prelude/Text.antt =====
-- Texts as Python's str methods read them, and the decimal digits of a number.
use Prim.Native.Char.{code}
use Prim.Native.String.{String, [], ◌∷◌, ◌++◌ as ◌⧺◌}
use Prim.Native.Nat.{ℕ, zero, suc, ◌/◌, ◌%◌}
use mathlib.Core.Bool.{Bool, true, false, ◌||◌}
use mathlib.Core.List.{List}
use db_collector_os.Prelude.Tests.{ltb, ◌=?◌, if◌then◌else◌}

-- s.startswith(p)
unfoldable pub starts_with : String → String → Bool
starts_with [] s = true
starts_with (c ∷ p) [] = false
starts_with (c ∷ p) (d ∷ s) = if code c =? code d then starts_with p s else false

-- p in s
unfoldable pub contains : String → String → Bool
unfolding starts_with
contains p [] = starts_with p []
contains p (c ∷ s) = starts_with p (c ∷ s) || contains p s

-- s[:n]
unfoldable pub take_text : ℕ → String → String
take_text zero s = []
take_text (suc n) [] = []
take_text (suc n) (c ∷ s) = c ∷ take_text n s

-- s.split(c)[0], for the code point of `c`
unfoldable pub before : ℕ → String → String
before c [] = []
before c (d ∷ s) = if code d =? c then [] else d ∷ before c s

-- any(p in s for p in ps)
unfoldable pub contains_any : List String → String → Bool
unfolding contains
contains_any List.[] s = false
contains_any (List.◌∷◌ p ps) s = contains p s || contains_any ps s

-- any(s.startswith(p) for p in ps)
unfoldable pub starts_with_any : List String → String → Bool
unfolding starts_with
starts_with_any List.[] s = false
starts_with_any (List.◌∷◌ p ps) s = starts_with p s || starts_with_any ps s

abbrev digit : ℕ → String
digit n =
    if n =? 0
    then "0"
    else if n =? 1
    then "1"
    else if n =? 2
    then "2"
    else if n =? 3
    then "3"
    else if n =? 4
    then "4"
    else if n =? 5
    then "5"
    else if n =? 6
    then "6"
    else if n =? 7
    then "7"
    else if n =? 8
    then "8"
    else "9"

-- The digits of a number, where the fuel is at least their count less one.
decimal_from : ℕ → ℕ → String
decimal_from zero n = digit (n % 10)
decimal_from (suc fuel) n =
    let rest = decimal_from fuel (n / 10) in if ltb n 10 then digit n else rest ⧺ digit (n % 10)

-- str(n): a number has fewer digits than it counts.
unfoldable pub decimal : ℕ → String
unfolding decimal_from
decimal n = decimal_from n n

-- s.split(":", 1)[1], or s where it has no colon
abbrev after_from : String → String → String
after_from whole [] = whole
after_from whole (c ∷ s) = if code c =? 58 then s else after_from whole s

unfoldable pub after_colon : String → String
after_colon s = after_from s s
