-- ===== src/Durations/Reading.antt =====
-- The texts of text.py say which duration they print: a reader of such texts gets it back.

use native.Mathlib.Nat.{mod-lt, div-add-mod'}
use diploid_agent.Prelude.{
  subst, sym, ℕ, zero, suc, ◌+◌, ◌-◌, ◌*◌, ◌/◌, ◌%◌, ◌≤◌, ◌<◌, ◌≡◌, refl, ◌∙◌, ap, true, ◌&&◌, [],
  ◌∷◌, ◌++◌, append_assoc, if◌then◌else◌, arith, ltb, leb, nat_eq, Bool-cases, inl, inr,
}
use diploid_agent.Json.{Text}
use diploid_agent.Durations.{
  digit, decimal, str, unit, m_s, h_m, h_m_s, human_duration, elapsed_short, whole_duration,
  whole_elapsed, whole_compact, ahead, behind,
}

-- The seconds of a letter; any other character stands for nothing.
abbrev pub seconds_of : ℕ → ℕ
seconds_of c =
    if nat_eq c b'h' then 3600 else if nat_eq c b'm' then 60 else if nat_eq c b's' then 1 else 0

-- Reads numbers with their letters and adds them up; blanks are passed over.
unfoldable pub read : (number total : ℕ) → Text → ℕ
read number total [] = total
read number total (c ∷ text) =
    read
      (if leb b'0' c && leb c b'9'
        then number * 10 + (c - b'0')
        else if nat_eq c b' '
        then number
        else 0)
      (total + (if leb b'0' c && leb c b'9' then 0 else number * seconds_of c)) text

abbrev pub duration_of : Text → ℕ
duration_of text = read 0 0 text

read-digit :
    (number total d : ℕ) (rest : Text)
    → d < 10
    → read number total (digit d ∷ rest) ≡ read (number * 10 + d) total rest
unfolding read
read-digit number total d rest h = ground arith

read-decimal :
    (fuel n total : ℕ) (rest : Text)
    → n ≤ fuel
    → read 0 total (decimal fuel n ++ rest) ≡ read n total rest
unfolding decimal
read-decimal zero n total rest h =
    let none : n ≡ 0 = omega arith in rw none (read-digit 0 total 0 rest (omega arith))
read-decimal (suc fuel) n total rest h = elim (Bool-cases (ltb n 10)) [
  | inl e ↦
      rw (decimal, e)
        (read-digit 0 total n rest (ground arith) ∙ ap (λ k. read k total rest) (omega arith))
  | inr e ↦
      rw (decimal, e)
        (ap (read 0 total) (append_assoc (decimal fuel (n / 10)) (digit (n % 10) ∷ []) rest)
          ∙ read-decimal fuel (n / 10) total (digit (n % 10) ∷ rest) (ground arith)
          ∙ read-digit (n / 10) total (n % 10) rest (omega arith)
          ∙ ap (λ k. read k total rest) (omega arith))
]

read-str : (n total : ℕ) (rest : Text) → read 0 total (str n ++ rest) ≡ read n total rest
read-str n total rest = read-decimal n n total rest (omega arith)

read-hours :
    (n total : ℕ) (rest : Text) → read n total (b'h' ∷ rest) ≡ read 0 (total + n * 3600) rest
unfolding read
read-hours n total rest = refl

read-minutes :
    (n total : ℕ) (rest : Text) → read n total (b'm' ∷ rest) ≡ read 0 (total + n * 60) rest
unfolding read
read-minutes n total rest = refl

read-blank : (n total : ℕ) (rest : Text) → read n total (b' ' ∷ rest) ≡ read n total rest
unfolding read
read-blank n total rest = ap (λ k. read n k rest) (omega arith)

read-seconds : (n total : ℕ) → read 0 total (unit n b's') ≡ total + n
unfolding read
read-seconds n total = read-str n total (b's' ∷ []) ∙ omega arith

read-last_minutes : (n total : ℕ) → read 0 total (unit n b'm') ≡ total + n * 60
unfolding read
read-last_minutes n total = read-str n total (b'm' ∷ []) ∙ omega arith

read-m_s : (m s total : ℕ) → read 0 total (m_s m s) ≡ total + m * 60 + s
read-m_s m s total =
    read-str m total (b'm' ∷ b' ' ∷ unit s b's')
    ∙ read-minutes m total (b' ' ∷ unit s b's')
    ∙ read-blank 0 (total + m * 60) (unit s b's')
    ∙ read-seconds s (total + m * 60)

read-h_m : (h m : ℕ) → duration_of (h_m h m) ≡ h * 3600 + m * 60
read-h_m h m =
    read-str h 0 (b'h' ∷ b' ' ∷ unit m b'm')
    ∙ read-hours h 0 (b' ' ∷ unit m b'm')
    ∙ read-blank 0 (0 + h * 3600) (unit m b'm')
    ∙ read-last_minutes m (0 + h * 3600)
    ∙ omega arith

read-h_m_s : (h m s : ℕ) → duration_of (h_m_s h m s) ≡ h * 3600 + m * 60 + s
read-h_m_s h m s =
    read-str h 0 (b'h' ∷ b' ' ∷ m_s m s)
    ∙ read-hours h 0 (b' ' ∷ m_s m s)
    ∙ read-blank 0 (0 + h * 3600) (m_s m s)
    ∙ read-m_s m s (0 + h * 3600)
    ∙ omega arith

read-last_hours : (n : ℕ) → duration_of (unit n b'h') ≡ n * 3600
unfolding read
read-last_hours n = read-str n 0 (b'h' ∷ []) ∙ omega arith

duration_of-whole_duration :
    (seconds : ℕ)
    → (duration_of (whole_duration seconds) ≡ seconds)
      × (duration_of (whole_elapsed seconds) ≡ seconds)
unfolding whole_duration whole_elapsed
duration_of-whole_duration seconds = (human, elapsed)
  where
    m : ℕ
    m = seconds / 60

    human : duration_of (whole_duration seconds) ≡ seconds
    human = elim (Bool-cases (ltb seconds 60)) [
      | inl e ↦ rw (whole_duration, e) (read-seconds seconds 0 ∙ omega arith)
      | inr e ↦ elim (Bool-cases (ltb m 60)) [
        | inl f ↦ rw (whole_duration, e, f) (read-m_s m (seconds % 60) 0 ∙ omega arith)
        | inr f ↦
            rw (whole_duration, e, f) (read-h_m_s (m / 60) (m % 60) (seconds % 60) ∙ omega arith)
      ]
    ]

    elapsed : duration_of (whole_elapsed seconds) ≡ seconds
    elapsed = elim (Bool-cases (ltb 0 m)) [
      | inl e ↦ rw (whole_elapsed, e) (read-m_s m (seconds % 60) 0 ∙ omega arith)
      | inr e ↦
          let short : m ≡ 0 = ground arith in
          rw (whole_elapsed, e) (read-seconds (seconds % 60) 0 ∙ omega (arith, short))
    ]

-- The texts of an hour or more.
abbrev long_text : ℕ → Text
long_text seconds =
    let minutes = seconds % 3600 / 60 in
    if nat_eq (seconds / 3600) 1
    then (if nat_eq minutes 0 then unit 1 b'h' else h_m 1 minutes)
    else if nat_eq minutes 0
    then unit (seconds / 3600) b'h'
    else h_m (seconds / 3600) minutes

duration_of-long_text : (seconds : ℕ) → duration_of (long_text seconds) ≡ seconds / 60 * 60
duration_of-long_text seconds = elim (Bool-cases (nat_eq (seconds / 3600) 1)) [
  | inl e ↦
      let one : seconds / 3600 ≡ 1 = ground arith in
      elim (Bool-cases (nat_eq (seconds % 3600 / 60) 0)) [
        | inl f ↦
            let none : seconds % 3600 / 60 ≡ 0 = ground arith in
            rw (e, f) (read-last_hours 1 ∙ omega (arith, one, none))
        | inr f ↦ rw (e, f) (read-h_m 1 (seconds % 3600 / 60) ∙ omega (arith, one))
      ]
  | inr e ↦ elim (Bool-cases (nat_eq (seconds % 3600 / 60) 0)) [
    | inl f ↦
        let none : seconds % 3600 / 60 ≡ 0 = ground arith in
        rw (e, f) (read-last_hours (seconds / 3600) ∙ omega (arith, none))
    | inr f ↦ rw (e, f) (read-h_m (seconds / 3600) (seconds % 3600 / 60) ∙ omega arith)
  ]
]

-- The text of compact_duration drops the seconds of an hour or more, and nothing else.
pub duration_of-whole_compact :
    (seconds : ℕ)
    → duration_of (whole_compact seconds)
      ≡ (if ltb seconds 3600 then seconds else seconds / 60 * 60)
unfolding whole_compact
duration_of-whole_compact seconds = elim (Bool-cases (ltb seconds 60)) [
  | inl e ↦
      let below : ltb seconds 3600 ≡ true = ground arith in
      rw (whole_compact, e, below) (read-seconds seconds 0 ∙ omega arith)
  | inr e ↦ elim (Bool-cases (ltb seconds 3600)) [
    | inl f ↦ elim (Bool-cases (nat_eq (seconds % 60) 0)) [
      | inl g ↦
          let whole : seconds % 60 ≡ 0 = ground arith in
          rw (whole_compact, e, f, g) (read-last_minutes (seconds / 60) 0 ∙ omega (arith, whole))
      | inr g ↦ rw (whole_compact, e, f, g) (read-m_s (seconds / 60) (seconds % 60) 0 ∙ omega arith)
    ]
    | inr f ↦ rw (whole_compact, e, f) (duration_of-long_text seconds)
  ]
]

-- `n` is the number of full seconds in the ticks.
abbrev pub IsFull : (per_second ticks n : ℕ) → Type 0
IsFull per_second ticks n = (n * per_second ≤ ticks) × (ticks < n * per_second + per_second)

full_lem : (per_second ticks : ℕ) → 0 < per_second → IsFull per_second ticks (ticks / per_second)
full_lem per_second ticks h =
    let parts = div-add-mod' ticks per_second in
    let small = mod-lt ticks h in (omega (arith, parts), omega (arith, parts, small))

-- What a reader of numbers with the letters h, m and s gets from the texts: for a duration that is
-- not negative, its full seconds, from human_duration and from elapsed_short, so that both lose the
-- fraction of a second and nothing else; for a negative one, nothing from human_duration, and less
-- than a minute from elapsed_short. A second has ticks.
pub duration_of-human_duration :
    (per_second ticks : ℕ)
    → 0 < per_second
    → IsFull per_second ticks (duration_of (human_duration per_second (ahead ticks)))
      × IsFull per_second ticks (duration_of (elapsed_short per_second (ahead ticks)))
      × (duration_of (human_duration per_second (behind ticks)) ≡ 0)
      × (duration_of (elapsed_short per_second (behind ticks)) < 60)
unfolding human_duration elapsed_short
duration_of-human_duration per_second ticks h =
    let n = ticks / per_second in
    let (human, elapsed) = duration_of-whole_duration n in
    let full = full_lem per_second ticks h in
    (
      subst (IsFull per_second ticks) (sym human) full,
      subst (IsFull per_second ticks) (sym elapsed) full,
      (duration_of-whole_duration 0).0,
      omega (arith, read-seconds ((60 - n % 60) % 60) 0),
    )
