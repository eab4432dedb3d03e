-- ===== src/Pmp/Locked.antt =====
-- A locked entry.
use inspectre.Base.{
  [], ltb, if◌then◌else◌, Bool-cases, length, set, length-set, get_or-set_ne, ℕ, ◌≡◌, refl, ap, ◌∙◌,
  inl, inr, true, false, List, ◌∷◌,
}
use inspectre.Pmp.{Pmp, PmpEntry, disabled, entry_at, is_locked, set_cfg, set_addr}

-- The writes that a hart can make to the unit.
pub data PmpWrite : Type 0 where
  cfg_write : ℕ → ℕ → PmpWrite
  addr_write : ℕ → ℕ → PmpWrite

pub write : Pmp → PmpWrite → Pmp
write p (PmpWrite.cfg_write idx cfg) = set_cfg p idx cfg
write p (PmpWrite.addr_write idx addr) = set_addr p idx addr

abbrev pub writes : Pmp → List PmpWrite → Pmp
writes p [] = p
writes p (w ∷ ws) = writes (write p w) ws

-- Both writes keep the locked entries and the number of entries.
record Kept (p q : Pmp) (i : ℕ) : Type 0 where
  entry : entry_at q i ≡ entry_at p i
  size : length q.entries ≡ length p.entries

module _ (p : Pmp) (i : ℕ) (locked : is_locked (entry_at p i) ≡ true) where
  put-Kept :
      (idx : ℕ) (e : PmpEntry)
      → Kept p
          (if ltb idx (length p.entries)
            then (if is_locked (entry_at p idx)
                then p
                else record p { entries = set p.entries idx e })
            else p)
          i
  put-Kept idx e = elim (Bool-cases (ltb idx (length p.entries))) [
    | inr beyond ↦ rw beyond (record { entry = refl; size = refl })
    | inl inside ↦ rw inside (elim (Bool-cases (is_locked (entry_at p idx))) [
      | inl other ↦ rw other (record { entry = refl; size = refl })
      | inr free ↦ rw free (record {
        entry = get_or-set_ne p.entries idx i e disabled (λ q. absurd (apart free q));
        size = length-set p.entries idx e;
      })
    ])
  ]
    where
      apart : is_locked (entry_at p idx) ≡ false → idx ≡ i → ⊥
      apart free q = cc (ap (λ k. is_locked (entry_at p k)) q)

  write-Kept : (w : PmpWrite) → Kept p (write p w) i
  unfolding write set_cfg set_addr
  write-Kept (PmpWrite.cfg_write idx cfg) = put-Kept idx (record (entry_at p idx) { cfg = cfg })
  write-Kept (PmpWrite.addr_write idx addr) = put-Kept idx (record (entry_at p idx) { addr = addr })

-- Once an entry is locked, no sequence of writes to configurations and addresses changes its
-- configuration or its address, and it stays locked.
pub writes-locked :
    (p : Pmp) (i : ℕ) (ws : List PmpWrite)
    → is_locked (entry_at p i) ≡ true
    → (entry_at (writes p ws) i ≡ entry_at p i) × (is_locked (entry_at (writes p ws) i) ≡ true)
writes-locked p i [] locked = (refl, locked)
writes-locked p i (w ∷ ws) locked = after (writes-locked (write p w) i ws still)
  where
    after :
        (entry_at (writes (write p w) ws) i ≡ entry_at (write p w) i)
          × (is_locked (entry_at (writes (write p w) ws) i) ≡ true)
        → (entry_at (writes (write p w) ws) i ≡ entry_at p i)
          × (is_locked (entry_at (writes (write p w) ws) i) ≡ true)
    after (same, l) = (same ∙ (write-Kept p i locked w).entry, l)

    still : is_locked (entry_at (write p w) i) ≡ true
    still = ap is_locked (write-Kept p i locked w).entry ∙ locked
