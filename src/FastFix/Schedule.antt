-- ===== src/FastFix/Schedule.antt =====
-- When a reminder is due.
use yyou.Common.{
  ℕ, ◌+◌, ◌*◌, ◌%◌, ◌≤◌, ◌<◌, ◌≡◌, true, false, arith, leb, Bool-cases, inl, inr, ◌↔◌,
}
use yyou.Common.Int.{ℤ, pos, negsuc}
use yyou.FastFix.Notes.{half_hours, half_hour, ten_minutes, is_due}

-- `n` whole half hours lie between the note and ten minutes past the current time, counted below zero
-- where the note is later.
abbrev pub IsHalfHours : ℕ → ℕ → ℤ → Type 0
IsHalfHours notify current (pos n) =
    (notify + n * half_hour ≤ current + ten_minutes)
    × (current + ten_minutes < notify + (n + 1) * half_hour)
IsHalfHours notify current (negsuc n) =
    (current + ten_minutes + n * half_hour < notify)
    × (notify ≤ current + ten_minutes + (n + 1) * half_hour)

-- The interval is the difference in half hours, rounded down also below zero.
half_hours-IsHalfHours :
    (notify current : ℕ) → IsHalfHours notify current (half_hours notify current)
unfolding half_hours
half_hours-IsHalfHours notify current = elim (Bool-cases (leb notify (current + ten_minutes))) [
  | inl e ↦ rw e (omega (arith, leb_true notify (current + ten_minutes) e))
  | inr e ↦ rw e (omega (arith, leb_false notify (current + ten_minutes) e))
]
  where
    leb_true : (a b : ℕ) → leb a b ≡ true → a ≤ b
    leb_true a b h = ground arith

    leb_false : (a b : ℕ) → leb a b ≡ false → b < a
    leb_false a b h = ground arith

-- A reminder every 10 hours and the escalation, every 48 hours from the first day on, are due in the
-- half hours that the two calls in `checkBug` mean: at positive multiples of 20 half hours, and at 48
-- half hours and a multiple of 96 more.
is_due_at :
    (n : ℕ)
    → ((is_due (pos n) 20 0 ≡ true) ↔ ((0 < n) × (n % 20 ≡ 0)))
      × ((is_due (pos n) 96 48 ≡ true) ↔ (n % 96 ≡ 48))
unfolding is_due
is_due_at n = ground arith
