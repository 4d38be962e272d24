-- ===== src/Durations.antt =====
-- The formatters of text.py. A text is its list of code points; a number is printed in decimal, as
-- `str` does. A float number of seconds is a whole number of ticks, ahead of zero or behind it, and
-- `per_second` ticks are a second.
pub mod Reading
mod Tests
use diploid_agent.Prelude.{
  ℕ, zero, suc, ◌+◌, ◌-◌, ◌/◌, ◌%◌, List, [], ◌∷◌, ◌++◌, if◌then◌else◌, ltb, nat_eq,
}
use diploid_agent.Json.{Text}

abbrev pub digit : ℕ → ℕ
digit n = b'0' + n

-- The fuel bounds the number of digits.
unfoldable pub decimal : (fuel : ℕ) → ℕ → Text
decimal zero n = digit (n % 10) ∷ []
decimal (suc fuel) n =
    let more = decimal fuel (n / 10) in
    if ltb n 10 then digit n ∷ [] else more ++ digit (n % 10) ∷ []

-- A number has fewer digits than its value, plus one.
abbrev pub str : ℕ → Text
str n = decimal n n

abbrev pub m_s : (minutes seconds : ℕ) → Text
m_s minutes seconds = str minutes ++ (b'm' ∷ b' ' ∷ (str seconds ++ (b's' ∷ [])))

abbrev pub h_m_s : (hours minutes seconds : ℕ) → Text
h_m_s hours minutes seconds = str hours ++ (b'h' ∷ b' ' ∷ m_s minutes seconds)

abbrev pub h_m : (hours minutes : ℕ) → Text
h_m hours minutes = str hours ++ (b'h' ∷ b' ' ∷ (str minutes ++ (b'm' ∷ [])))

abbrev pub unit : ℕ → (letter : ℕ) → Text
unit n letter = str n ++ letter ∷ []

-- A number of ticks, or of seconds, with its sign.
pub data Signed : Type 0 where
  ahead behind : ℕ → Signed

-- int(seconds): towards zero.
abbrev pub int : (per_second : ℕ) → Signed → Signed
int per_second (ahead ticks) = ahead (ticks / per_second)
int per_second (behind ticks) = behind (ticks / per_second)

-- max(0, n)
abbrev pub max_zero : Signed → ℕ
max_zero (ahead n) = n
max_zero (behind n) = 0

-- The text of a whole number of seconds.
unfoldable pub whole_duration : (seconds : ℕ) → Text
whole_duration seconds =
    if ltb seconds 60
    then unit seconds b's'
    else if ltb (seconds / 60) 60
    then m_s (seconds / 60) (seconds % 60)
    else h_m_s (seconds / 60 / 60) (seconds / 60 % 60) (seconds % 60)

unfoldable pub human_duration : (per_second : ℕ) → (seconds : Signed) → Text
unfolding whole_duration
human_duration per_second seconds = whole_duration (max_zero (int per_second seconds))

unfoldable pub whole_compact : (seconds : ℕ) → Text
whole_compact seconds =
    if ltb seconds 60
    then unit seconds b's'
    else if ltb seconds 3600
    then (if nat_eq (seconds % 60) 0
        then unit (seconds / 60) b'm'
        else m_s (seconds / 60) (seconds % 60))
    else (let minutes = seconds % 3600 / 60 in
        if nat_eq (seconds / 3600) 1
        then (if nat_eq minutes 0 then unit 1 b'h' else h_m 1 minutes)
        else if nat_eq minutes 0
        then unit (seconds / 3600) b'h'
        else h_m (seconds / 3600) minutes)

-- A float is below 60, or below 3600, as its whole part is.
unfoldable pub compact_duration : (per_second : ℕ) → (seconds : Signed) → Text
unfolding whole_compact
compact_duration per_second seconds = whole_compact (max_zero (int per_second seconds))

unfoldable pub whole_elapsed : (seconds : ℕ) → Text
whole_elapsed seconds =
    if ltb 0 (seconds / 60) then m_s (seconds / 60) (seconds % 60) else unit (seconds % 60) b's'

-- divmod rounds down, so that a negative total has no positive minutes, and seconds from 0 to 59.
unfoldable pub elapsed_short : (per_second : ℕ) → (seconds : Signed) → Text
unfolding whole_elapsed
elapsed_short per_second seconds = elim (int per_second seconds) [
  | ahead total ↦ whole_elapsed total
  | behind total ↦ unit ((60 - total % 60) % 60) b's'
]
