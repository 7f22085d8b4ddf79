-- ===== src/Progress.antt =====
-- src/progbar.c: the two counters. The text of progbar_now is a function of them.
use tank_convertor.Base.{
  ℕ, ◌+◌, ◌%◌, ◌^◌, ◌==◌, if◌then◌else◌, Option, none, some, ℤ, pos, size_of_int, signed32,
}
use tank_convertor.Floating.{Floating}

-- Both are `unsigned int`.
pub record Duty : Type 0 where
  pub total_duty : ℕ
  pub comp_duty : ℕ

-- The counters and the result.
unfoldable pub progbar_init : ℤ → Duty → ℤ × Duty
progbar_init total d =
    let n = size_of_int total % 2 ^ 32 in (signed32 n, record { total_duty = n; comp_duty = 0 })

unfoldable pub progbar_inc : Duty → ℤ × Duty
progbar_inc d = let n = (d.comp_duty + 1) % 2 ^ 32 in (signed32 n, record d { comp_duty = n })

-- The percentage that progbar_now prints; `none` is its text without a number.
unfoldable pub progbar_now : (f : Floating) → Duty → Option f.Double
progbar_now f d =
    if d.total_duty == 0
    then none
    else some (
        f.mul
          (f.double_of_single
            (f.div_single (f.single_of_int (pos d.comp_duty)) (f.single_of_int (pos d.total_duty))))
          (f.double_of_int (pos 100)))
