-- ===== src/Rob/Marks.antt =====
-- The four operations that mark an entry, as changes of the queue of in-flight instructions.
use inspectre.Base.{ℕ, ◌≡◌, refl, ap, ◌∙◌, sym, List, [], ◌∷◌, arith}
use inspectre.Trap.{Trap, ExceptionStage}
use inspectre.Rob.{
  Rob, RobTag, RobEntry, CsrUpdate, completes, faults, sets_csr, sets_store, update_entry, complete,
  fault, set_csr_update, set_store_info,
}
use inspectre.Rob.Spec
use inspectre.Rob.Invariant.{IsValid, contents}
use inspectre.Rob.Update.{IsLocal, update_entry_refines, update_entry-IsValid}

completes-IsLocal : (x : ℕ) → IsLocal (completes x)
completes-IsLocal x = record { keeps_tag = λ e. ground arith; keeps_valid = λ e. ground arith }

faults-IsLocal : (trap : Trap) (stage : ExceptionStage) → IsLocal (faults trap stage)
faults-IsLocal trap stage = record { keeps_tag = λ e. refl; keeps_valid = λ e. refl }

sets_csr-IsLocal : (update : CsrUpdate) → IsLocal (sets_csr update)
sets_csr-IsLocal update = record { keeps_tag = λ e. refl; keeps_valid = λ e. refl }

sets_store-IsLocal : (addr value : ℕ) → IsLocal (sets_store addr value)
sets_store-IsLocal addr value = record { keeps_tag = λ e. refl; keeps_valid = λ e. refl }

module _ (r : Rob) (t : RobTag) (v : IsValid r) where
  -- A local change by tag: the buffer stays valid, and the queue changes at the tag only.
  abbrev pub Marked : (RobEntry → RobEntry) → Rob → Type 0
  Marked f s = IsValid s × (contents s ≡ Spec.update t f (contents r))

  marked : (f : RobEntry → RobEntry) → IsLocal f → Marked f (update_entry r t f)
  marked f l = (update_entry-IsValid r t f v l, update_entry_refines r t f v)

  pub complete-Marked : (x : ℕ) → Marked (completes x) (complete r t x)
  unfolding complete
  complete-Marked x = marked _ (completes-IsLocal x)

  pub fault-Marked :
      (trap : Trap) (stage : ExceptionStage) → Marked (faults trap stage) (fault r t trap stage)
  unfolding fault
  fault-Marked trap stage = marked _ (faults-IsLocal trap stage)

  pub set_csr_update-Marked :
      (update : CsrUpdate) → Marked (sets_csr update) (set_csr_update r t update)
  unfolding set_csr_update
  set_csr_update-Marked update = marked _ (sets_csr-IsLocal update)

  pub set_store_info-Marked :
      (addr value : ℕ) → Marked (sets_store addr value) (set_store_info r t addr value)
  unfolding set_store_info
  set_store_info-Marked addr value = marked _ (sets_store-IsLocal addr value)

  -- The four marks keep a valid buffer valid, and each changes the live entry with the tag as
  -- its body says and no other entry.
  pub marks_refine :
      (x : ℕ) (trap : Trap) (stage : ExceptionStage) (update : CsrUpdate) (addr value : ℕ)
      → Marked (completes x) (complete r t x)
        × Marked (faults trap stage) (fault r t trap stage)
        × Marked (sets_csr update) (set_csr_update r t update)
        × Marked (sets_store addr value) (set_store_info r t addr value)
  marks_refine x trap stage update addr value = (
    complete-Marked x,
    fault-Marked trap stage,
    set_csr_update-Marked update,
    set_store_info-Marked addr value,
  )

complete_faulted :
    (t : RobTag) (x : ℕ) (trap : Trap) (stage : ExceptionStage) (q : List RobEntry)
    → Spec.update t (completes x) (Spec.update t (faults trap stage) q)
      ≡ Spec.update t (faults trap stage) q
complete_faulted t x trap stage [] = refl
complete_faulted t x trap stage (e ∷ q) = λ i. stays i ∷ complete_faulted t x trap stage q i
  where
    stays :
        Spec.at_tag t (completes x) (Spec.at_tag t (faults trap stage) e)
        ≡ Spec.at_tag t (faults trap stage) e
    stays = ground arith

-- On a valid buffer a late completion changes nothing of a faulted instruction: the buffer holds
-- what it held after the fault, whatever result the writeback brings.
pub complete-fault :
    (r : Rob) (t : RobTag) (x : ℕ) (trap : Trap) (stage : ExceptionStage)
    → IsValid r
    → contents (complete (fault r t trap stage) t x) ≡ contents (fault r t trap stage)
complete-fault r t x trap stage v =
    (complete-Marked (fault r t trap stage) t done.0 x).1
    ∙ ap (Spec.update t (completes x)) done.1
    ∙ complete_faulted t x trap stage (contents r)
    ∙ sym done.1
  where
    done : Marked r t v (faults trap stage) (fault r t trap stage)
    done = fault-Marked r t v trap stage
