-- ===== src/Scoreboard/Changes.antt =====
-- The scoreboard keeps pace with rename, commit, the marks on entries and the rebuild.
use inspectre.Base.{
  ℕ, ◌≡◌, ◌≢◌, refl, sym, ap, ◌∙◌, ◌<◌, Bool, true, false, ◌&&◌, Option, none, some, [], ◌∷◌, ◌++◌,
  length, length-set, get_or-set_self, get_or-set_ne, tabulate, ==_ne, if◌then◌else◌, arith,
}
use mathlib.Core.List.{foldl, append-nil, append_assoc}
use inspectre.Rob.{Rob, RobTag, RobEntry}
use inspectre.Rob.Invariant.{IsValid, contents}
use inspectre.Rob.Search.Laws.{for_each_valid_refines}
use inspectre.Rob.Spec
use inspectre.Scoreboard.{
  Scoreboard, is_tag, set_producer, get_producer, clear_if_match, flush, mark, rebuild_from_rob,
  mark_renamed, clear_committed,
}
use inspectre.Scoreboard.Latest.{owns, tag_of, producer, latest-tag-ne}
use inspectre.Scoreboard.Coherent.{Coherent, flush-Coherent, mark-Coherent}

-- Rename's marking is that of the rebuild.
mark_renamed-mark : (s : Scoreboard) (e : RobEntry) → mark_renamed s e ≡ mark s e
unfolding mark_renamed set_producer
mark_renamed-mark s e = ground arith

pub renamed-Coherent :
    (s : Scoreboard) (q : Spec.Queue) (e : RobEntry)
    → Coherent s q
    → Coherent (mark_renamed s e) (q ++ (e ∷ []))
renamed-Coherent s q e c = rw (mark_renamed-mark s e) (mark-Coherent s q e c)

foldl-Coherent :
    (s : Scoreboard) (q rest : Spec.Queue) → Coherent s q → Coherent (foldl mark s rest) (q ++ rest)
foldl-Coherent s q [] c = rw append-nil c
foldl-Coherent s q (e ∷ rest) c =
    rw append_assoc at (foldl-Coherent (mark s e) (q ++ (e ∷ [])) rest (mark-Coherent s q e c))

-- Whatever the scoreboard held, a rebuild from a valid buffer makes each register's entry the tag
-- of the youngest in-flight instruction that writes it, and clears the others.
pub rebuild-Coherent :
    (s : Scoreboard) (r : Rob) → IsValid r → Coherent (rebuild_from_rob s r) (contents r)
unfolding rebuild_from_rob
rebuild-Coherent s r v =
    rw (for_each_valid_refines r v mark (flush s))
      (foldl-Coherent (flush s) [] (contents r) (flush-Coherent s))

-- A change that keeps an entry's tag, destination and control signals.
pub record KeepsDestination (f : RobEntry → RobEntry) : Type 0 where
  pub tag : (e : RobEntry) → (f e).tag ≡ e.tag
  pub rd : (e : RobEntry) → (f e).rd ≡ e.rd
  pub ctrl : (e : RobEntry) → (f e).ctrl ≡ e.ctrl

tag_of-younger :
    (b b' : Bool) (e e' : RobEntry) (o o' : Option RobEntry)
    → b ≡ b'
    → e.tag ≡ e'.tag
    → tag_of o ≡ tag_of o'
    → tag_of (Spec.younger b e o) ≡ tag_of (Spec.younger b' e' o')
tag_of-younger b b' e e' (some x) (some x') p q h = h
tag_of-younger b b' e e' (some x) none p q h = cc
tag_of-younger b b' e e' none (some x') p q h = cc
tag_of-younger b b' e e' none none p q h = ground arith

producer-update :
    (t : RobTag) (f : RobEntry → RobEntry)
    → KeepsDestination f
    → (is_fp : Bool) (reg : ℕ) (q : Spec.Queue)
    → producer is_fp reg (Spec.update t f q) ≡ producer is_fp reg q
producer-update t f k is_fp reg [] = refl
producer-update t f k is_fp reg (e ∷ q) =
    tag_of-younger _ _ (Spec.at_tag t f e) e _ _ same_owner same_tag
      (producer-update t f k is_fp reg q)
  where
    same_tag : (Spec.at_tag t f e).tag ≡ e.tag
    same_tag = ground (arith, k.tag e)

    same_owner : owns is_fp reg (Spec.at_tag t f e) ≡ owns is_fp reg e
    same_owner = ground (arith, k.rd e, k.ctrl e)

pub update-Coherent :
    (s : Scoreboard) (q : Spec.Queue) (t : RobTag) (f : RobEntry → RobEntry)
    → KeepsDestination f
    → Coherent s q
    → Coherent s (Spec.update t f q)
update-Coherent s q t f k c = record {
  gprs = c.gprs;
  fprs = c.fprs;
  agrees = λ is_fp reg h. c.agrees is_fp reg h ∙ sym (producer-update t f k is_fp reg q);
}

module _ (s : Scoreboard) (e : RobEntry) (gprs : length s.gpr ≡ 32) (fprs : length s.fpr ≡ 32) where
  get_producer-clear :
      (is_fp : Bool) (reg : ℕ)
      → reg < 32
      → get_producer (clear_committed s e) reg is_fp ≡ (
          if owns is_fp reg e && is_tag (get_producer s reg is_fp) e.tag
          then none
          else get_producer s reg is_fp)
  unfolding get_producer clear_committed clear_if_match
  get_producer-clear is_fp reg h = ground (
    arith,
    get_or-set_self s.gpr e.rd none none,
    get_or-set_self s.fpr e.rd none none,
    get_or-set_ne s.gpr e.rd reg none none,
    get_or-set_ne s.fpr e.rd reg none none,
  )

gprs-clear :
    (s : Scoreboard) (e : RobEntry) → length s.gpr ≡ 32 → length (clear_committed s e).gpr ≡ 32
unfolding clear_committed clear_if_match
gprs-clear s e h = ground (arith, length-set s.gpr e.rd none)

fprs-clear :
    (s : Scoreboard) (e : RobEntry) → length s.fpr ≡ 32 → length (clear_committed s e).fpr ≡ 32
unfolding clear_committed clear_if_match
fprs-clear s e h = ground (arith, length-set s.fpr e.rd none)

cleared :
    (b : Bool) (e : RobEntry) (o : Option RobEntry)
    → tag_of o ≢ some e.tag
    → (if b && is_tag (tag_of (Spec.younger b e o)) e.tag
        then none
        else tag_of (Spec.younger b e o))
      ≡ tag_of o
cleared true e (some x) ne = rw (==_ne x.tag e.tag (λ q. ne (ap some q)))
cleared false e (some x) ne = refl
cleared true e none ne = ground arith
cleared false e none ne = refl

-- When the oldest instruction leaves, its destination is cleared only where no younger one has
-- taken it over, if no younger one has its tag.
pub cleared-Coherent :
    (s : Scoreboard) (e : RobEntry) (f : ℕ → RobEntry) (n : ℕ)
    → ((k : ℕ) → k < n → (f k).tag ≢ e.tag)
    → Coherent s (e ∷ tabulate f n)
    → Coherent (clear_committed s e) (tabulate f n)
cleared-Coherent s e f n away c = record {
  gprs = gprs-clear s e c.gprs;
  fprs = fprs-clear s e c.fprs;
  agrees = λ is_fp reg h.
      get_producer-clear s e c.gprs c.fprs is_fp reg h
      ∙ ap (λ o. if owns is_fp reg e && is_tag o e.tag then none else o) (c.agrees is_fp reg h)
      ∙ cleared (owns is_fp reg e) e (Spec.latest (owns is_fp reg) (tabulate f n))
          (latest-tag-ne (owns is_fp reg) e.tag f n away);
}
