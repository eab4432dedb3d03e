-- ===== src/Plic.antt =====
-- crates/hardware/src/soc/devices/plic.rs: the interrupt controller. Context 0 is machine mode and
-- context 1 is supervisor mode. Registers are u32.
pub mod Highest
mod Tests
use inspectre.Base.{
  [], ltb, leb, ◌==◌, if◌then◌else◌, length, get_or, set, replicate, has, clear, ℕ, zero, suc, ◌+◌,
  ◌-◌, ◌*◌, ◌/◌, ◌%◌, ◌^◌, bit_and, Bool, true, false, not, ◌&&◌, ◌||◌, List,
}

pub record Plic : Type 0 where
  pub base_addr : ℕ
  pub priorities : List ℕ
  pub pending : List ℕ
  pub enables : List (List ℕ)
  pub thresholds : List ℕ
  pub claims : List ℕ

unfoldable pub new : ℕ → Plic
new base_addr = record {
  base_addr = base_addr;
  priorities = replicate 1024 0;
  pending = replicate 32 0;
  enables = replicate 2 (replicate 32 0);
  thresholds = replicate 2 0;
  claims = replicate 2 0;
}

unfoldable pub update_irqs : Plic → ℕ → Plic
update_irqs p mask = record p {
  pending = set (set p.pending 0 (bit_and mask (2 ^ 32 - 1))) 1 (mask / 2 ^ 32 % 2 ^ 32);
}

abbrev pub threshold_of : Plic → ℕ → ℕ
threshold_of p ctx = get_or p.thresholds ctx 0

abbrev pub enables_of : Plic → ℕ → List ℕ
enables_of p ctx = get_or p.enables ctx []

unfoldable pub num_words : Plic → ℕ → ℕ
num_words p ctx =
    if ltb (length (enables_of p ctx)) (length p.pending)
    then length (enables_of p ctx)
    else length p.pending

unfoldable pub active : Plic → ℕ → ℕ → ℕ
active p ctx word = bit_and (get_or p.pending word 0) (get_or (enables_of p ctx) word 0)

abbrev pub priority_of : Plic → ℕ → ℕ
priority_of p irq_id = get_or p.priorities irq_id 0

-- The test of one interrupt, number 0 being reserved.
unfoldable pub qualifies : Plic → ℕ → ℕ → ℕ → Bool
qualifies p ctx word k =
    let irq_id = word * 32 + k in
    not (irq_id == 0)
    && has (active p ctx word) (2 ^ k)
    && ltb irq_id (length p.priorities)
    && ltb (threshold_of p ctx) (priority_of p irq_id)

-- The bits `k`, `k + 1`, … of a word, and the words `word`, `word + 1`, …
unfoldable pub any_in_word : Plic → ℕ → ℕ → ℕ → ℕ → Bool
any_in_word p ctx word k zero = false
any_in_word p ctx word k (suc n) =
    let rest = any_in_word p ctx word (k + 1) n in if qualifies p ctx word k then true else rest

unfoldable pub any_from : Plic → ℕ → ℕ → ℕ → Bool
any_from p ctx word zero = false
any_from p ctx word (suc n) =
    let rest = any_from p ctx (word + 1) n in
    let here = any_in_word p ctx word 0 32 in
    if active p ctx word == 0 then rest else (if here then true else rest)

unfoldable pub has_qualified_irq : Plic → ℕ → Bool
has_qualified_irq p ctx = any_from p ctx 0 (num_words p ctx)

-- The highest priority so far, and the interrupt that has it.
abbrev pub Highest : Type 0
Highest = ℕ × ℕ

unfoldable pub better : Plic → ℕ → ℕ → ℕ → Highest → Highest
better p ctx word k (max_prio, max_id) =
    let irq_id = word * 32 + k in
    if qualifies p ctx word k && ltb max_prio (priority_of p irq_id)
    then (priority_of p irq_id, irq_id)
    else (max_prio, max_id)

unfoldable pub scan_word : Plic → ℕ → ℕ → ℕ → ℕ → Highest → Highest
scan_word p ctx word k zero best = best
scan_word p ctx word k (suc n) best = scan_word p ctx word (k + 1) n (better p ctx word k best)

unfoldable pub scan_from : Plic → ℕ → ℕ → ℕ → Highest → Highest
scan_from p ctx word zero best = best
scan_from p ctx word (suc n) best =
    scan_from p ctx (word + 1) n
      (if active p ctx word == 0 then best else scan_word p ctx word 0 32 best)

unfoldable pub calc_max_id : Plic → ℕ → ℕ
calc_max_id p ctx = (scan_from p ctx 0 (num_words p ctx) (0, 0)).1

unfoldable pub claim_of : Plic → ℕ → ℕ
claim_of p ctx = if has_qualified_irq p ctx then calc_max_id p ctx else 0

-- Whether machine mode and supervisor mode have an interrupt, and the controller afterwards.
unfoldable pub check_interrupts : Plic → (Bool × Bool) × Plic
check_interrupts p = (
  (has_qualified_irq p 0, has_qualified_irq p 1),
  record p { claims = set (set p.claims 0 (claim_of p 0)) 1 (claim_of p 1) },
)

abbrev pub within : ℕ → ℕ → ℕ → Bool
within low high offset = leb low offset && ltb offset high

-- The claim of a context takes its interrupt off the pending ones.
unfoldable pub read_claim : Plic → ℕ → ℕ × Plic
read_claim p ctx =
    let claim = get_or p.claims ctx 0 in
    let idx = claim / 32 in
    (
      claim,
      if ltb 0 claim
          then record p {
            pending = set p.pending idx (clear (get_or p.pending idx 0) (2 ^ (claim % 32)));
          }
          else p,
    )

unfoldable pub read_u32 : Plic → ℕ → ℕ × Plic
read_u32 p offset =
    if within 0 4096 offset
    then (get_or p.priorities (offset / 4) 0, p)
    else if within 4096 8192 offset
    then (get_or p.pending ((offset - 4096) / 4) 0, p)
    else if within 8192 2097152 offset
    then (let ctx = (offset - 8192) / 128 in
        let word_idx = (offset - 8192) % 128 / 4 in
        if ltb ctx 2 && ltb word_idx 32 then (get_or (enables_of p ctx) word_idx 0, p) else (0, p))
    else (let ctx = (offset - 2097152) / 4096 in
        let reg = bit_and offset 4095 in
        if ltb ctx 2
        then (if reg == 0
            then (threshold_of p ctx, p)
            else (if reg == 4 then read_claim p ctx else (0, p)))
        else (0, p))

unfoldable pub write_u32 : Plic → ℕ → ℕ → Plic
write_u32 p offset val =
    if within 0 4096 offset
    then record p { priorities = set p.priorities (offset / 4) val }
    else if within 8192 2097152 offset
    then (let ctx = (offset - 8192) / 128 in
        let word_idx = (offset - 8192) % 128 / 4 in
        if ltb ctx 2 && ltb word_idx 32
        then record p { enables = set p.enables ctx (set (enables_of p ctx) word_idx val) }
        else p)
    else if leb 2097152 offset
    then (let ctx = (offset - 2097152) / 4096 in
        let reg = bit_and offset 4095 in
        if ltb ctx 2
        then (if reg == 0
            then record p { thresholds = set p.thresholds ctx val }
            else (if reg == 4 then record p { claims = set p.claims ctx 0 } else p))
        else p)
    else p

unfoldable pub tick : Plic → Bool × Plic
tick p = let r = check_interrupts p in (r.0.0 || r.0.1, r.1)
