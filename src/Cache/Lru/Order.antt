-- ===== src/Cache/Lru/Order.antt =====
-- Lists of ways in the order of their uses: what a removal keeps, and the ways older than another.
use inspectre.Base.{
  [], ◌==◌, if◌then◌else◌, ==_iff, ==_ne, Bool-cases, and_true, ℕ, ◌≡◌, refl, sym, ap, subst, ◌∙◌,
  inl, inr, Bool, true, false, not, ◌&&◌, ◌||◌, some, List, ◌∷◌, arith,
}
use inspectre.Cache.Lru.{remove_way, last}

-- The way stands in the list.
abbrev pub among : ℕ → List ℕ → Bool
among way [] = false
among way (x ∷ q) = x == way || among way q

-- No way stands twice in the list.
abbrev pub distinct : List ℕ → Bool
distinct [] = true
distinct (x ∷ q) = not (among x q) && distinct q

-- Every way of the list but `v` is one of the uses.
abbrev pub others_among : ℕ → List ℕ → List ℕ → Bool
others_among v ws [] = true
others_among v ws (x ∷ q) = (x == v || among x ws) && others_among v ws q

-- The ways used less recently than `v`.
abbrev pub older : ℕ → List ℕ → List ℕ
older v [] = []
older v (x ∷ q) = let rest = older v q in if x == v then q else rest

and-cases : (a b : Bool) → (not a && b) ≡ true → (a ≡ false) × (b ≡ true)
and-cases true b e = absurd (cc)
and-cases false b e = (refl, e)

pub or-cases : (a b : Bool) → (a || b) ≡ false → (a ≡ false) × (b ≡ false)
or-cases true b e = absurd (cc)
or-cases false b e = (refl, e)

pub clash : {A : Type 0} → false ≡ true → A
clash e = absurd (cc)

or-true : (b : Bool) → (b || true) ≡ true
or-true true = refl
or-true false = refl

-- A test that a conditional list depends on, put in its place.
pub chosen :
    {c : Bool} (s t : List ℕ) (b : Bool) (P : List ℕ → Type 0)
    → c ≡ b
    → P (if c then s else t)
    → P (if b then s else t)
chosen s t b P e h = subst (λ a. P (if a then s else t)) e h

-- A way outside the list is none of it.
among-ne : (x y : ℕ) (q : List ℕ) → among x q ≡ false → among y q ≡ true → (x == y) ≡ false
among-ne x y q off on = ==_ne x y (λ e. clash (sym off ∙ ap (λ t. among t q) e ∙ on))

-- A removal takes away the way and no other.
pub among-remove :
    (w y : ℕ) (q : List ℕ)
    → distinct q ≡ true
    → among y (remove_way w q) ≡ true
    → (among y q ≡ true) × ((w == y) ≡ false)
among-remove w y [] d e = absurd (cc)
among-remove w y (x ∷ q) d e =
    let apart = and-cases (among x q) (distinct q) d in
    elim (Bool-cases (x == w)) [
      | inl same ↦
          let later = chosen _ _ true (λ t. among y t ≡ true) same e in
          (
            rw later (or-true (x == y)),
            subst (λ t. (t == y) ≡ false) ((==_iff x w).0 same) (among-ne x y q apart.0 later),
          )
      | inr ne ↦ elim (Bool-cases (x == y)) [
        | inl at ↦ (rw at refl, differs ne at)
        | inr past ↦
            let below = among-remove w y q apart.1 (
              subst (λ b. (b || among y (remove_way w q)) ≡ true) past
                (chosen _ _ false (λ t. among y t ≡ true) ne e)) in
            (rw below.0 (or-true (x == y)), below.1)
      ]
    ]
  where
    differs : (x == w) ≡ false → (x == y) ≡ true → (w == y) ≡ false
    differs ne at = ground arith

remove-absent : (w : ℕ) (q : List ℕ) → among w q ≡ false → remove_way w q ≡ q
remove-absent w [] e = refl
remove-absent w (x ∷ q) e =
    let parts = or-cases (x == w) (among w q) e in rw (parts.0, remove-absent w q parts.1) refl

-- A removal of another way keeps a way out of the list.
absent-remove : (w x : ℕ) (q : List ℕ) → among x q ≡ false → among x (remove_way w q) ≡ false
absent-remove w x [] e = refl
absent-remove w x (y ∷ q) e =
    let parts = or-cases (y == x) (among x q) e in
    elim (Bool-cases (y == w)) [
      | inl at ↦ rw at parts.1
      | inr ne ↦ rw (ne, parts.0) (absent-remove w x q parts.1)
    ]

pub distinct-remove : (w : ℕ) (q : List ℕ) → distinct q ≡ true → distinct (remove_way w q) ≡ true
distinct-remove w [] d = refl
distinct-remove w (x ∷ q) d =
    let apart = and-cases (among x q) (distinct q) d in
    elim (Bool-cases (x == w)) [
      | inl at ↦ rw at apart.1
      | inr ne ↦ rw (ne, absent-remove w x q apart.0, distinct-remove w q apart.1) refl
    ]

-- After a removal the way is not in the list.
pub remove-removes : (w : ℕ) (q : List ℕ) → distinct q ≡ true → among w (remove_way w q) ≡ false
remove-removes w q d = elim (Bool-cases (among w (remove_way w q))) [
  | inl on ↦ clash (sym (among-remove w w q d on).1 ∙ (==_iff w w).1 refl)
  | inr off ↦ off
]

pub among-older : (v y : ℕ) (q : List ℕ) → among y (older v q) ≡ true → among y q ≡ true
among-older v y [] e = e
among-older v y (x ∷ q) e = elim (Bool-cases (x == v)) [
  | inl at ↦ rw (chosen _ _ true (λ t. among y t ≡ true) at e) (or-true (x == y))
  | inr ne ↦
      rw (among-older v y q (chosen _ _ false (λ t. among y t ≡ true) ne e)) (or-true (x == y))
]

pub distinct-older : (v : ℕ) (q : List ℕ) → distinct q ≡ true → distinct (older v q) ≡ true
distinct-older v [] d = refl
distinct-older v (x ∷ q) d =
    let apart = and-cases (among x q) (distinct q) d in
    elim (Bool-cases (x == v)) [
      | inl at ↦ rw at apart.1
      | inr ne ↦ rw ne (distinct-older v q apart.1)
    ]

-- A use of another way takes it from the ways older than `v`.
pub older-remove :
    (w v : ℕ) (q : List ℕ)
    → distinct q ≡ true
    → (w == v) ≡ false
    → older v (remove_way w q) ≡ remove_way w (older v q)
older-remove w v [] d ne = refl
older-remove w v (x ∷ q) d ne =
    let apart = and-cases (among x q) (distinct q) d in
    elim (Bool-cases (x == w)) [
      | inl at ↦ rw (at, other at) (sym (remove-absent w (older v q) (gone at apart.0)))
      | inr off ↦ rw off (elim (Bool-cases (x == v)) [
        | inl here ↦ rw here refl
        | inr past ↦ rw past (older-remove w v q apart.1 ne)
      ])
    ]
  where
    other : (x == w) ≡ true → (x == v) ≡ false
    other at = ground arith

    gone : (x == w) ≡ true → among x q ≡ false → among w (older v q) ≡ false
    gone at off = elim (Bool-cases (among w (older v q))) [
      | inl on ↦
          clash (sym (ap (λ t. among t q) (sym ((==_iff x w).0 at)) ∙ off) ∙ among-older v w q on)
      | inr e ↦ e
    ]

-- The way with no older one is the last.
pub last-older : (v : ℕ) (q : List ℕ) → among v q ≡ true → older v q ≡ [] → last q ≡ some v
last-older v [] e none_older = absurd (cc)
last-older v (x ∷ []) e none_older = elim (Bool-cases (x == v)) [
  | inl at ↦ ap some ((==_iff x v).0 at)
  | inr ne ↦ clash (sym (rw ne refl) ∙ e)
]
last-older v (x ∷ y ∷ q) e none_older = elim (Bool-cases (x == v)) [
  | inl at ↦ filled (chosen _ _ true (λ t. t ≡ []) at none_older)
  | inr ne ↦
      last-older v (y ∷ q) (subst (λ b. (b || among v (y ∷ q)) ≡ true) ne e)
        (chosen _ _ false (λ t. t ≡ []) ne none_older)
]
  where
    filled : {A : Type 0} → y ∷ q ≡ [] → A
    filled e = absurd (cc)

-- A way is not older than itself.
pub older-excludes : (v : ℕ) (q : List ℕ) → distinct q ≡ true → among v (older v q) ≡ false
older-excludes v [] d = refl
older-excludes v (x ∷ q) d =
    let apart = and-cases (among x q) (distinct q) d in
    elim (Bool-cases (x == v)) [
      | inl at ↦ rw at (subst (λ t. among t q ≡ false) ((==_iff x v).0 at) apart.0)
      | inr ne ↦ rw ne (older-excludes v q apart.1)
    ]

-- One of the others is among the uses.
pub others_among-lem :
    (v : ℕ) (ws : List ℕ) (y : ℕ) (q : List ℕ)
    → others_among v ws q ≡ true
    → among y q ≡ true
    → (y == v) ≡ false
    → among y ws ≡ true
others_among-lem v ws y [] h e ne = absurd (cc)
others_among-lem v ws y (x ∷ q) h e ne =
    let parts = and_true (x == v || among x ws) (others_among v ws q) h in
    elim (Bool-cases (x == y)) [
      | inl at ↦ subst (λ t. among t ws ≡ true) ((==_iff x y).0 at) (in_uses at parts.0)
      | inr past ↦
          others_among-lem v ws y q parts.1 (subst (λ b. (b || among y q) ≡ true) past e) ne
    ]
  where
    in_uses : (x == y) ≡ true → (x == v || among x ws) ≡ true → among x ws ≡ true
    in_uses at both = subst (λ b. (b || among x ws) ≡ true) (other at) both
      where
        other : (x == y) ≡ true → (x == v) ≡ false
        other at = ground arith

-- A use of another way keeps a way in the list.
pub among-kept :
    (w v : ℕ) (q : List ℕ) → (w == v) ≡ false → among v q ≡ true → among v (remove_way w q) ≡ true
among-kept w v [] ne e = e
among-kept w v (x ∷ q) ne e = elim (Bool-cases (x == w)) [
  | inl at ↦ rw at (subst (λ b. (b || among v q) ≡ true) (other at) e)
  | inr off ↦ rw off (elim (Bool-cases (x == v)) [
    | inl here ↦ rw here refl
    | inr past ↦ rw past (among-kept w v q ne (subst (λ b. (b || among v q) ≡ true) past e))
  ])
]
  where
    other : (x == w) ≡ true → (x == v) ≡ false
    other at = ground arith

pub among-ne_flip : (x y : ℕ) (q : List ℕ) → among x q ≡ false → among y q ≡ true → (y == x) ≡ false
among-ne_flip x y q off on = ==_ne y x (λ e. clash (sym off ∙ ap (λ t. among t q) (sym e) ∙ on))
