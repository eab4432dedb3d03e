-- ===== src/Tlb/Lookup.antt =====
-- What a lookup finds after each operation.
use mathlib.Core.Path.{subst}
use inspectre.Base.{
  ◌==◌, if◌then◌else◌, ==_iff, ==_false, ==_ne, Bool-cases, and_true, length, get_or, set,
  length-set, length-replicate, get_or-set_self, get_or-set_ne, length-map, get_or-map, bit_and-le,
  ℕ, zero, suc, ◌*◌, ◌<◌, ◌≡◌, refl, sym, ap, ◌∙◌, ◌≢◌, inl, inr, Bool, true, false, not, ◌&&◌,
  none, some, arith,
}
use inspectre.Tlb.{
  Tlb, TlbEntry, default_entry, next_power_of_two, safe_size, is_power_of_two, new, index,
  translation, hit, lookup, filled, insert, dropped, invalidate, flush,
}

-- Every index is in range.
pub record IsValid (t : Tlb) : Type 0 where
  pub in_range : t.mask < length t.entries

index-lt : {t : Tlb} (vpn : ℕ) → IsValid t → index t vpn < length t.entries
index-lt {t} vpn v = omega (arith, v.in_range, bit_and-le vpn t.mask)

next_power_of_two-pos : (rounds acc n : ℕ) → 0 < acc → 0 < next_power_of_two rounds acc n
next_power_of_two-pos zero acc n p = p
next_power_of_two-pos (suc rounds) acc n p =
    ground (arith, next_power_of_two-pos rounds (acc * 2) n (omega arith))

safe_size-pos : (size : ℕ) → 0 < safe_size size
safe_size-pos size = elim (Bool-cases (is_power_of_two size)) [
  | inl e ↦ rw e (omega (arith, positive (and_true _ _ e).0))
  | inr e ↦ rw e (next_power_of_two-pos 64 1 size (omega arith))
]
  where
    positive : not (size == 0) ≡ true → 0 < size
    positive e = ground arith

-- A buffer of any size starts valid.
pub new-IsValid : (size : ℕ) → IsValid (new size)
unfolding new
new-IsValid size = record { in_range = rw length-replicate (omega (arith, safe_size-pos size)) }

-- The slot of the page holds the page.
abbrev holds : Tlb → ℕ → Bool
holds t vpn =
    (get_or t.entries (index t vpn) default_entry).valid
    && (get_or t.entries (index t vpn) default_entry).vpn == vpn

hit-other : (e : TlbEntry) (vpn : ℕ) → e.vpn ≢ vpn → hit e vpn ≡ none
hit-other e vpn ne = rw (==_ne e.vpn vpn ne) (nothing e.valid)
  where
    nothing : (b : Bool) → (if b && false then some (translation e) else none) ≡ none
    nothing true = refl
    nothing false = refl

module _ (t : Tlb) (v : IsValid t) where
  pub insert-IsValid : (vpn ppn pte : ℕ) → IsValid (insert t vpn ppn pte)
  unfolding insert
  insert-IsValid vpn ppn pte = record { in_range = rw length-set v.in_range }

  -- After an insertion into a valid buffer the page is found with what was inserted; of the other
  -- pages only the one that shared its slot is lost.
  pub lookup-insert :
      (vpn ppn pte page : ℕ)
      → lookup (insert t vpn ppn pte) page ≡ (
          if vpn == page
          then some (translation (filled vpn ppn pte))
          else (if index t vpn == index t page then none else lookup t page))
  unfolding insert lookup
  lookup-insert vpn ppn pte page = elim (Bool-cases (index t vpn == index t page)) [
    | inl same ↦ ap (λ e. hit e page) (at_same ((==_iff _ _).0 same)) ∙ rw same refl
    | inr other ↦
        ap (λ e. hit e page) (get_or-set_ne t.entries _ _ _ default_entry (==_false _ _ other))
        ∙ rw (other, apart vpn page other) refl
  ]
    where
      at_same :
          index t vpn ≡ index t page
          → get_or (insert t vpn ppn pte).entries (index t page) default_entry ≡ filled vpn ppn pte
      at_same q =
          ap (λ j. get_or (insert t vpn ppn pte).entries j default_entry) (sym q)
          ∙ get_or-set_self t.entries (index t vpn) (filled vpn ppn pte) default_entry
              (index-lt vpn v)

      apart : (vpn page : ℕ) → (index t vpn == index t page) ≡ false → (vpn == page) ≡ false
      apart vpn page other = ==_ne vpn page (λ q. ==_false _ _ other (ap (index t) q))

  pub invalidate-IsValid : (vpn : ℕ) → IsValid (invalidate t vpn)
  unfolding invalidate
  invalidate-IsValid vpn = elim (Bool-cases (holds t vpn)) [
    | inl e ↦ rw e (record { in_range = rw length-set v.in_range })
    | inr e ↦ rw e v
  ]

  -- After an invalidation in a valid buffer the page is not found, and every other page is as it
  -- was.
  pub lookup-invalidate :
      (vpn page : ℕ)
      → lookup (invalidate t vpn) page ≡ (if vpn == page then none else lookup t page)
  unfolding invalidate lookup
  lookup-invalidate vpn page = elim (Bool-cases (holds t vpn)) [
    | inr e ↦ rw e (missing e)
    | inl e ↦ rw e (elim (Bool-cases (index t vpn == index t page)) [
      | inl same ↦
          ap (λ f. hit f page) (at_same ((==_iff _ _).0 same)) ∙ elim (Bool-cases (vpn == page)) [
            | inl here ↦ rw here refl
            | inr elsewhere ↦
                rw elsewhere (sym (evicted e ((==_iff _ _).0 same) (==_false _ _ elsewhere)))
          ]
      | inr other ↦
          ap (λ f. hit f page) (get_or-set_ne t.entries _ _ _ default_entry (==_false _ _ other))
          ∙ rw (apart vpn page other) refl
    ])
  ]
    where
      apart : (vpn page : ℕ) → (index t vpn == index t page) ≡ false → (vpn == page) ≡ false
      apart vpn page other = ==_ne vpn page (λ q. ==_false _ _ other (ap (index t) q))

      missing : holds t vpn ≡ false → lookup t page ≡ (if vpn == page then none else lookup t page)
      missing e = elim (Bool-cases (vpn == page)) [
        | inl here ↦ rw here (subst (λ j. lookup t j ≡ none) ((==_iff _ _).0 here) (rw e refl))
        | inr elsewhere ↦ rw elsewhere refl
      ]

      emptied : TlbEntry
      emptied = dropped (get_or t.entries (index t vpn) default_entry)

      slot_page : ℕ
      slot_page = (get_or t.entries (index t vpn) default_entry).vpn

      slot_live : Bool
      slot_live = (get_or t.entries (index t vpn) default_entry).valid

      at_same :
          index t vpn ≡ index t page
          → get_or (set t.entries (index t vpn) emptied) (index t page) default_entry ≡ emptied
      at_same q =
          ap (λ j. get_or (set t.entries (index t vpn) emptied) j default_entry) (sym q)
          ∙ get_or-set_self t.entries (index t vpn) emptied default_entry (index-lt vpn v)

      evicted : holds t vpn ≡ true → index t vpn ≡ index t page → vpn ≢ page → lookup t page ≡ none
      evicted e q ne =
          ap (λ j. hit (get_or t.entries j default_entry) page) (sym q)
          ∙ hit-other (get_or t.entries (index t vpn) default_entry) page (λ r.
            ne (sym ((==_iff slot_page vpn).0 (and_true slot_live (slot_page == vpn) e).1) ∙ r))

  -- A flush leaves nothing.
  pub lookup-flush : (page : ℕ) → IsValid (flush t) × (lookup (flush t) page ≡ none)
  unfolding flush lookup
  lookup-flush page = (
    record { in_range = rw length-map v.in_range },
    ap (λ e. hit e page) (get_or-map dropped t.entries (index t page) default_entry),
  )
