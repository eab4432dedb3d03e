-- ===== src/Scoreboard/Tests.antt =====
-- A run of the engine's steps, and the theorems at it.
use inspectre.Base.{refl, true, false, arith}
use inspectre.Signals.{ControlSignals, default_signals}
use inspectre.Rob.{Rob, allocate}
use inspectre.Rob
use inspectre.Rob.Invariant.{IsValid, contents}
use inspectre.Rob.Allocate.{new-IsValid, allocate-IsValid}
use inspectre.Scoreboard.{Scoreboard, rebuild_from_rob}
use inspectre.Scoreboard
use inspectre.Scoreboard.Coherent.{Coherent}
use inspectre.Scoreboard.Changes.{rebuild-Coherent}
use inspectre.Scoreboard.Tracking.{Window, initial, renames, flushes, Reach, here, next}

abbrev adds : ControlSignals
adds = record default_signals { reg_write = true }

abbrev renamed : Window
renamed = record {
  rob = (allocate (initial 4).rob 0x1000 0x13 4 5 false adds).0;
  scoreboard =
      Scoreboard.mark_renamed (initial 4).scoreboard
        (Rob.fresh_entry (initial 4).rob.next_tag 0x1000 0x13 4 5 false adds);
}

abbrev flushed : Window
flushed = record {
  rob = Rob.flush_all renamed.rob;
  scoreboard = Scoreboard.flush renamed.scoreboard;
}

-- One instruction is renamed, and a trap flushes it.
unfoldable run : Reach (initial 4) flushed
unfolding initial Rob.new
run =
    next (next here (renames 0x1000 0x13 4 5 adds renamed (omega arith) refl))
      (flushes flushed refl)

renamed-IsValid : IsValid renamed.rob
unfolding initial Rob.new
renamed-IsValid =
    allocate-IsValid (Rob.new 4) 0x1000 0x13 4 5 false adds (new-IsValid 4 (omega arith)) refl

-- The buffer holds the instruction renamed.
rebuild-Coherent_example :
    Coherent (rebuild_from_rob Scoreboard.new renamed.rob) (contents renamed.rob)
rebuild-Coherent_example = rebuild-Coherent Scoreboard.new renamed.rob renamed-IsValid
