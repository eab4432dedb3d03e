-- ===== src/Scoreboard/Latest.antt =====
-- The register's latest producer among the in-flight instructions, as a test on entries.
use inspectre.Base.{
  ℕ, zero, suc, ◌≢◌, ◌<◌, Bool, true, false, ◌&&◌, not, Option, none, some, tabulate, ◌==◌,
  if◌then◌else◌, arith,
}
use inspectre.Rob.{RobTag, RobEntry}
use inspectre.Rob.Spec

-- The entry writes this register. No entry writes x0.
abbrev pub owns : Bool → ℕ → RobEntry → Bool
owns is_fp reg e =
    if e.ctrl.fp_reg_write
    then is_fp && e.rd == reg
    else not is_fp && (e.ctrl.reg_write && (not (e.rd == 0) && e.rd == reg))

abbrev pub tag_of : Option RobEntry → Option RobTag
tag_of none = none
tag_of (some e) = some e.tag

-- The tag of the youngest instruction that writes the register.
abbrev pub producer : Bool → ℕ → Spec.Queue → Option RobTag
producer is_fp reg q = tag_of (Spec.latest (owns is_fp reg) q)

-- What `latest` finds is an entry of the queue, so its tag is one of theirs.
pub latest-tag-ne :
    (p : RobEntry → Bool) (t : RobTag) (f : ℕ → RobEntry) (n : ℕ)
    → ((k : ℕ) → k < n → (f k).tag ≢ t)
    → tag_of (Spec.latest p (tabulate f n)) ≢ some t
latest-tag-ne p t f zero away e = cc
latest-tag-ne p t f (suc n) away e =
    by_tail (p (f 0)) (Spec.latest p (tabulate (λ i. f (suc i)) n))
      (latest-tag-ne p t (λ i. f (suc i)) n (λ k h. away (suc k) (omega arith))) e
  where
    by_tail :
        (b : Bool) (o : Option RobEntry)
        → tag_of o ≢ some t
        → tag_of (Spec.younger b (f 0) o) ≢ some t
    by_tail b (some x) ne e = ne e
    by_tail true none ne e = away 0 (omega arith) (cc)
    by_tail false none ne e = cc
