-- ===== src/Rob/Spec.antt =====
-- What the reorder buffer promises: a bounded queue of in-flight instructions in program order,
-- without slots, indices or a tag index.
use inspectre.Base.{
  ℕ, ◌≡◌, refl, Bool, true, false, Option, none, some, List, [], ◌∷◌, ◌++◌, map, length, ◌==◌,
  if◌then◌else◌,
}
use inspectre.Rob.{RobTag, RobEntry, is_issued}

abbrev pub Queue : Type 0
Queue = List RobEntry

-- A full queue refuses; otherwise the entry goes to the end.
abbrev pub push : ℕ → Queue → RobEntry → Queue × Option RobTag
push limit q e = if length q == limit then (q, none) else (q ++ (e ∷ []), some e.tag)

-- The entries with the tag are changed by `f`.
abbrev pub at_tag : RobTag → (RobEntry → RobEntry) → RobEntry → RobEntry
at_tag t f e = if e.tag == t then f e else e

abbrev pub update : RobTag → (RobEntry → RobEntry) → Queue → Queue
update t f q = map (at_tag t f) q

abbrev pub find : RobTag → Queue → Option RobEntry
find t [] = none
find t (e ∷ q) = if e.tag == t then some e else find t q

-- The oldest entry leaves once it is no longer waiting for its result.
abbrev pub commit : Queue → Queue × Option RobEntry
commit [] = ([], none)
commit (e ∷ q) = if is_issued e.state then (e ∷ q, none) else (q, some e)

-- The entries up to the tag stay; a queue without the tag stays whole.
abbrev pub has_tag : RobTag → Queue → Bool
has_tag t [] = false
has_tag t (e ∷ q) = if e.tag == t then true else has_tag t q

abbrev pub up_to : RobTag → Queue → Queue
up_to t [] = []
up_to t (e ∷ q) = if e.tag == t then e ∷ [] else e ∷ up_to t q

abbrev pub flush_after : RobTag → Queue → Queue
flush_after t q = if has_tag t q then up_to t q else q

-- The youngest entry that passes the test.
abbrev pub younger : Bool → RobEntry → Option RobEntry → Option RobEntry
younger b e (some x) = some x
younger b e none = if b then some e else none

abbrev pub latest : (RobEntry → Bool) → Queue → Option RobEntry
latest p [] = none
latest p (e ∷ q) = younger (p e) e (latest p q)

pub latest-snoc :
    (p : RobEntry → Bool) (q : Queue) (e : RobEntry)
    → latest p (q ++ (e ∷ [])) ≡ (if p e then some e else latest p q)
latest-snoc p [] e = refl
latest-snoc p (x ∷ q) e = rw (latest-snoc p q e) (by_test (p e))
  where
    by_test :
        (b : Bool)
        → younger (p x) x (if b then some e else latest p q)
          ≡ (if b then some e else younger (p x) x (latest p q))
    by_test true = refl
    by_test false = refl

abbrev pub and_then {ℓ} : {B : Type ℓ} → (RobEntry → Option B) → Option RobEntry → Option B
and_then f none = none
and_then f (some e) = f e
