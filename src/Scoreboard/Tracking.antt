-- ===== src/Scoreboard/Tracking.antt =====
-- The reorder buffer and the scoreboard together: the steps by which the stages of the in-order
-- engine change them, and the invariant that every sequence of steps keeps.
-- (backend/inorder/mod.rs, backend/shared/commit.rs, frontend/rename.rs)
pub mod Invariant
use inspectre.Base.{ℕ, ◌≡◌, ◌≢◌, none, some}
use inspectre.Signals.{ControlSignals}
use inspectre.Trap.{Trap, ExceptionStage}
use inspectre.Rob.{
  Rob, RobTag, RobEntry, CsrUpdate, capacity, is_faulted, fresh_entry, allocate, commit_head,
  complete, fault, set_csr_update, set_store_info, flush_all,
}
use inspectre.Rob
use inspectre.Rob.Flush.{flush_after}
use inspectre.Rob.Flush.Keep.{IsNewestOfFull, flush_after_refines}
use inspectre.Rob.Invariant.{IsValid, contents}
use inspectre.Scoreboard.{Scoreboard, flush, rebuild_from_rob, mark_renamed, clear_committed}
use inspectre.Scoreboard
use inspectre.Scoreboard.Coherent.{Coherent}

pub record Window : Type 0 where
  pub rob : Rob
  pub scoreboard : Scoreboard

-- An empty engine with a reorder buffer of the given size.
unfoldable pub initial : ℕ → Window
initial size = record { rob = Rob.new size; scoreboard = Scoreboard.new }

-- One stage's change. Rename takes place where a slot is free; the partial flush keeps what is up to
-- a tag, which is that of any instruction.
pub data Step (w : Window) : Window → Type 0 where
  renames :
      (pc inst inst_size rd : ℕ) (ctrl : ControlSignals) (u : Window)
      → w.rob.count ≢ capacity w.rob
      → u ≡ record {
        rob = (allocate w.rob pc inst inst_size rd ctrl.fp_reg_write ctrl).0;
        scoreboard =
            mark_renamed w.scoreboard
              (fresh_entry w.rob.next_tag pc inst inst_size rd ctrl.fp_reg_write ctrl);
      }
      → Step w u
  completes :
      (t : RobTag) (x : ℕ) (u : Window) → u ≡ record w { rob = complete w.rob t x } → Step w u
  faults :
      (t : RobTag) (trap : Trap) (stage : ExceptionStage) (u : Window)
      → u ≡ record w { rob = fault w.rob t trap stage }
      → Step w u
  defers_csr :
      (t : RobTag) (update : CsrUpdate) (u : Window)
      → u ≡ record w { rob = set_csr_update w.rob t update }
      → Step w u
  resolves_store :
      (t : RobTag) (addr value : ℕ) (u : Window)
      → u ≡ record w { rob = set_store_info w.rob t addr value }
      → Step w u
  commits :
      (e : RobEntry) (u : Window)
      → (commit_head w.rob).1 ≡ some e
      → u ≡ record { rob = (commit_head w.rob).0; scoreboard = clear_committed w.scoreboard e }
      → Step w u
  flushes :
      (u : Window)
      → u ≡ record { rob = flush_all w.rob; scoreboard = flush w.scoreboard }
      → Step w u
  squashes :
      (t : RobTag) (r : Rob) (u : Window)
      → flush_after w.rob t ≡ some r
      → u ≡ record { rob = r; scoreboard = rebuild_from_rob w.scoreboard r }
      → Step w u

pub data Reach (w : Window) : Window → Type 0 where
  here : Reach w w
  next : {u v : Window} → Reach w u → Step u v → Reach w v

-- A step outside two situations: a rename whose tag is still in flight, since tags are reused after
-- 2 ^ 32 allocations, and a partial flush after the newest instruction of a full buffer, in which
-- `flush_after` loses the buffer.
unfoldable pub IsSafe : {w u : Window} → Step w u → Type 0
IsSafe {w} (renames pc inst inst_size rd ctrl u room e) = w.rob.tag_index w.rob.next_tag ≡ none
IsSafe {w} (Step.squashes t r u out e) = ¬ IsNewestOfFull w.rob t
IsSafe {w} (Step.completes t x u e) = Unit
IsSafe {w} (Step.faults t trap stage u e) = Unit
IsSafe {w} (Step.defers_csr t update u e) = Unit
IsSafe {w} (Step.resolves_store t addr value u e) = Unit
IsSafe {w} (Step.commits x u out e) = Unit
IsSafe {w} (Step.flushes u e) = Unit

unfoldable pub AllSafe : {w u : Window} → Reach w u → Type 0
AllSafe here = Unit
AllSafe (next r s) = AllSafe r × IsSafe s

-- The buffer is valid, and the scoreboard names each register's youngest producer in it.
pub record IsTracked (w : Window) : Type 0 where
  pub valid : IsValid w.rob
  pub coherent : Coherent w.scoreboard (contents w.rob)
