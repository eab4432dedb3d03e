-- ===== src/Scoreboard/Coherent.antt =====
-- The scoreboard names, for each register, the youngest in-flight instruction that writes it:
-- what each of its operations makes of that, as the queue of instructions changes.
use inspectre.Base.{
  ℕ, ◌≡◌, refl, sym, ap, ◌∙◌, ◌<◌, Bool, true, false, Option, none, some, [], ◌∷◌, ◌++◌, length,
  length-set, get_or-set_self, get_or-set_ne, get_or-replicate, if◌then◌else◌, arith,
}
use inspectre.Rob.{RobEntry}
use inspectre.Rob.Spec
use inspectre.Scoreboard.{Scoreboard, get_producer, flush, mark}
use inspectre.Scoreboard.Latest.{owns, tag_of, producer}

-- Both tables have their 32 registers, and each register's entry is its latest producer.
pub record Coherent (s : Scoreboard) (q : Spec.Queue) : Type 0 where
  pub gprs : length s.gpr ≡ 32
  pub fprs : length s.fpr ≡ 32
  pub agrees : (is_fp : Bool) (reg : ℕ) → reg < 32 → get_producer s reg is_fp ≡ producer is_fp reg q

pub flush-Coherent : (s : Scoreboard) → Coherent (flush s) []
unfolding flush get_producer
flush-Coherent s = record { gprs = refl; fprs = refl; agrees = none_marked }
  where
    none_marked : (is_fp : Bool) (reg : ℕ) → reg < 32 → get_producer (flush s) reg is_fp ≡ none
    none_marked true reg h = get_or-replicate 32 none reg
    none_marked false reg h = get_or-replicate 32 none reg

module _ (s : Scoreboard) (e : RobEntry) (gprs : length s.gpr ≡ 32) (fprs : length s.fpr ≡ 32) where
  get_producer-mark :
      (is_fp : Bool) (reg : ℕ)
      → reg < 32
      → get_producer (mark s e) reg is_fp
        ≡ (if owns is_fp reg e then some e.tag else get_producer s reg is_fp)
  unfolding get_producer
  get_producer-mark is_fp reg h = ground (
    arith,
    get_or-set_self s.gpr e.rd (some e.tag) none,
    get_or-set_self s.fpr e.rd (some e.tag) none,
    get_or-set_ne s.gpr e.rd reg (some e.tag) none,
    get_or-set_ne s.fpr e.rd reg (some e.tag) none,
  )

  gprs-mark : length (mark s e).gpr ≡ 32
  gprs-mark = ground (arith, length-set s.gpr e.rd (some e.tag))

  fprs-mark : length (mark s e).fpr ≡ 32
  fprs-mark = ground (arith, length-set s.fpr e.rd (some e.tag))

tag_of-if :
    (b : Bool) (e : RobEntry) (o : Option RobEntry)
    → (if b then some e.tag else tag_of o) ≡ tag_of (if b then some e else o)
tag_of-if true e o = refl
tag_of-if false e o = refl

-- Marking an entry's destination keeps pace with the entry joining the queue.
pub mark-Coherent :
    (s : Scoreboard) (q : Spec.Queue) (e : RobEntry)
    → Coherent s q
    → Coherent (mark s e) (q ++ (e ∷ []))
mark-Coherent s q e c = record {
  gprs = gprs-mark s e c.gprs c.fprs;
  fprs = fprs-mark s e c.gprs c.fprs;
  agrees = λ is_fp reg h.
      get_producer-mark s e c.gprs c.fprs is_fp reg h
      ∙ ap (λ o. if owns is_fp reg e then some e.tag else o) (c.agrees is_fp reg h)
      ∙ tag_of-if (owns is_fp reg e) e (Spec.latest (owns is_fp reg) q)
      ∙ ap tag_of (sym (Spec.latest-snoc (owns is_fp reg) q e));
}
