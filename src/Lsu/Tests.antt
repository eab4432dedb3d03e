-- ===== src/Lsu/Tests.antt =====
-- Bytes across the end of memory.
use inspectre.Base.{◌-◌, ◌*◌, ◌%◌, ◌^◌, ◌≡◌, arith}
use inspectre.Lsu.Unaligned.{split_load, split_store}
use inspectre.Lsu.Unaligned.Bytes.{read_byte, write_byte, split_load-split_store}

split_load-split_store_example :
    (split_load read_byte
      (2 ^ 64 - 2)
      4
      (split_store write_byte (2 ^ 64 - 2) 4 305419896 (λ a. 0))).0
    ≡ 305419896 % 2 ^ (4 * 8)
split_load-split_store_example =
    split_load-split_store (λ a. 0) (2 ^ 64 - 2) 4 305419896 (omega arith)
