-- ===== src/Clint/Tests.antt =====
-- Cycles of a timer.
use inspectre.Base.{◌-◌, ◌^◌, ◌≡◌, refl, arith}
use inspectre.Clint.{Clint, tick, advanced}
use inspectre.Clint.Time.{ticks, Runs, mtime-ticks}

abbrev timer : Clint
timer = record {
  base_addr = 0;
  mtime = 2 ^ 64 - 1;
  mtimecmp = 5;
  msip = 0;
  divider = 10;
  counter = 7;
}

wraps : (ticks 3 timer).mtime ≡ 0
unfolding ticks tick advanced
wraps = refl

mtime-ticks_example : Runs 25 timer (ticks 25 timer)
mtime-ticks_example = mtime-ticks 25 timer (omega arith) (omega arith)
