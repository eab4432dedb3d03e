-- ===== src/Scoreboard/Tracking/Invariant.antt =====
-- Every step keeps the buffer valid and the scoreboard in agreement with it.
use inspectre.Base.{
  [], ◌==◌, ==_ne, length, length-tabulate, ℕ, suc, ◌-◌, ◌<◌, ◌≡◌, refl, sym, ap, subst, ◌∙◌, ◌≢◌,
  false, Option, none, some, ◌∷◌, ◌++◌, arith,
}
use mathlib.Core.Path.{subst}
use mathlib.Core.Option.{some-injective}
use inspectre.Signals.{ControlSignals}
use inspectre.Rob.{
  Rob, RobTag, RobEntry, capacity, fresh_entry, allocate, commit_head, retired, head_entry,
}
use inspectre.Rob.Spec
use inspectre.Rob.Flush.{flush_after}
use inspectre.Rob.Flush.Keep.{flush_after_refines}
use inspectre.Rob.Invariant.{IsValid, entry_at, contents}
use inspectre.Rob.Allocate.{new-IsValid, contents-new, allocate-IsValid, allocate_refines}
use inspectre.Rob.Marks.{
  Marked, complete-Marked, fault-Marked, set_csr_update-Marked, set_store_info-Marked,
}
use inspectre.Rob.Commit.{
  commit_head-some, contents-retired, retired-IsValid, tag-retired-ne, flush_all_lem,
}
use inspectre.Scoreboard.{Scoreboard, rebuild_from_rob, mark_renamed, clear_committed}
use inspectre.Scoreboard
use inspectre.Scoreboard.Coherent.{Coherent, flush-Coherent}
use inspectre.Scoreboard.Changes.{
  renamed-Coherent, rebuild-Coherent, KeepsDestination, update-Coherent, cleared-Coherent,
}
use inspectre.Scoreboard.Tracking.{
  Window, initial, Step, renames, defers_csr, resolves_store, commits, flushes, squashes, IsSafe,
  IsTracked,
}

-- An empty engine with at least one slot is tracked.
pub initial-IsTracked : (size : ℕ) → 0 < size → IsTracked (initial size)
unfolding initial Scoreboard.new Scoreboard.flush
initial-IsTracked size h = record {
  valid = new-IsValid size h;
  coherent = rw contents-new (flush-Coherent Scoreboard.new);
}

module _ (w : Window) (t : IsTracked w) where
  renames-IsTracked :
      (pc inst inst_size rd : ℕ) (ctrl : ControlSignals)
      → w.rob.count ≢ capacity w.rob
      → w.rob.tag_index w.rob.next_tag ≡ none
      → IsTracked (record {
        rob = (allocate w.rob pc inst inst_size rd ctrl.fp_reg_write ctrl).0;
        scoreboard =
            mark_renamed w.scoreboard
              (fresh_entry w.rob.next_tag pc inst inst_size rd ctrl.fp_reg_write ctrl);
      })
  renames-IsTracked pc inst inst_size rd ctrl room fresh = record {
    valid = allocate-IsValid w.rob pc inst inst_size rd ctrl.fp_reg_write ctrl t.valid fresh;
    coherent = rw grown (renamed-Coherent w.scoreboard (contents w.rob) entry t.coherent);
  }
    where
      entry : RobEntry
      entry = fresh_entry w.rob.next_tag pc inst inst_size rd ctrl.fp_reg_write ctrl

      not_full : (length (contents w.rob) == capacity w.rob) ≡ false
      not_full =
          ap (λ n. n == capacity w.rob) (length-tabulate (entry_at w.rob) w.rob.count)
          ∙ ==_ne w.rob.count (capacity w.rob) room

      grown :
          contents (allocate w.rob pc inst inst_size rd ctrl.fp_reg_write ctrl).0
          ≡ contents w.rob ++ (entry ∷ [])
      grown =
          ap (λ (p : Spec.Queue × Option RobTag). p.0)
            (allocate_refines w.rob pc inst inst_size rd ctrl.fp_reg_write ctrl t.valid)
          ∙ rw not_full

  Marked-IsTracked :
      (r : Rob) (u : RobTag) (f : RobEntry → RobEntry)
      → KeepsDestination f
      → Marked w.rob u t.valid f r
      → IsTracked (record w { rob = r })
  Marked-IsTracked r u f k m = record {
    valid = m.0;
    coherent = rw m.1 (update-Coherent w.scoreboard (contents w.rob) u f k t.coherent);
  }

  squashed-IsTracked :
      (i : RobTag) (r : Rob)
      → (s : Rob) × (flush_after w.rob i ≡ some s)
        × IsValid s
        × (contents s ≡ Spec.flush_after i (contents w.rob))
      → flush_after w.rob i ≡ some r
      → IsTracked (record { rob = r; scoreboard = rebuild_from_rob w.scoreboard r })
  squashed-IsTracked i r (s, ends, v, _) out = record {
    valid = survives;
    coherent = rebuild-Coherent w.scoreboard r survives;
  }
    where
      survives : IsValid r
      survives = subst IsValid (some-injective s r (sym ends ∙ out)) v

  commits-IsTracked :
      (e : RobEntry)
      → (commit_head w.rob).1 ≡ some e
      → IsTracked
          (record { rob = (commit_head w.rob).0; scoreboard = clear_committed w.scoreboard e })
  commits-IsTracked e out = retire (commit_head-some w.rob e out)
    where
      retire :
          (n : ℕ) × (w.rob.count ≡ suc n)
            × (commit_head w.rob ≡ (retired w.rob, some (head_entry w.rob)))
            × (head_entry w.rob ≡ e)
          → IsTracked
              (record { rob = (commit_head w.rob).0; scoreboard = clear_committed w.scoreboard e })
      retire (n, c, step, same) =
          rw (step, ← same)
            (record {
              valid = retired-IsValid w.rob n t.valid c;
              coherent =
                  cleared-Coherent w.scoreboard (head_entry w.rob) (entry_at (retired w.rob))
                    (w.rob.count - 1) (tag-retired-ne w.rob n t.valid c)
                    (subst (Coherent w.scoreboard) (contents-retired w.rob n t.valid c) t.coherent);
            })

-- Every safe step of the engine keeps the reorder buffer valid and each register's scoreboard entry
-- equal to the tag of the youngest in-flight instruction that writes it.
pub Step-IsTracked : {w u : Window} → IsTracked w → (s : Step w u) → IsSafe s → IsTracked u
unfolding IsSafe
Step-IsTracked {w} t (renames pc inst inst_size rd ctrl u room e) fresh =
    rw e (renames-IsTracked w t pc inst inst_size rd ctrl room fresh)
Step-IsTracked {w} t (Step.completes i x u e) safe = rw e (
    Marked-IsTracked w t _ i _
      (record { tag = λ a. ground arith; rd = λ a. ground arith; ctrl = λ a. ground arith })
      (complete-Marked w.rob i t.valid x))
Step-IsTracked {w} t (Step.faults i trap stage u e) safe = rw e (
    Marked-IsTracked w t _ i _ (record { tag = λ a. refl; rd = λ a. refl; ctrl = λ a. refl })
      (fault-Marked w.rob i t.valid trap stage))
Step-IsTracked {w} t (defers_csr i update u e) safe = rw e (
    Marked-IsTracked w t _ i _ (record { tag = λ a. refl; rd = λ a. refl; ctrl = λ a. refl })
      (set_csr_update-Marked w.rob i t.valid update))
Step-IsTracked {w} t (resolves_store i addr value u e) safe = rw e (
    Marked-IsTracked w t _ i _ (record { tag = λ a. refl; rd = λ a. refl; ctrl = λ a. refl })
      (set_store_info-Marked w.rob i t.valid addr value))
Step-IsTracked {w} t (commits x u out e) safe = rw e (commits-IsTracked w t x out)
Step-IsTracked {w} t (flushes u e) safe = rw e (record {
  valid = (flush_all_lem w.rob t.valid).0;
  coherent = rw (flush_all_lem w.rob t.valid).1 (flush-Coherent w.scoreboard);
})
Step-IsTracked {w} t (squashes i r u out e) ok =
    rw e (squashed-IsTracked w t i r (flush_after_refines w.rob i t.valid ok) out)
