-- ===== src/Libs/Hash.antt =====
-- libs/hash.c: the hash function.
use hard_core.Prelude.{ℕ, ◌-◌, ◌*◌, ◌/◌, ◌%◌, ◌^◌}

-- `hash32` of a 32-bit word.
unfoldable pub hash32 : ℕ → ℕ → ℕ
hash32 val bits = (val * 0x9e370001) % 2 ^ 32 / 2 ^ (32 - bits)
