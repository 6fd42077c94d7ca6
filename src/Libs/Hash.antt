-- ===== src/Libs/Hash.antt =====
-- lab5/libs/hash.c: the multiplicative hash of a 32-bit number.
use os_labs.Common.{ℕ, ◌-◌, ◌*◌, ◌/◌, ◌%◌, ◌^◌}

-- GOLDEN_RATIO_PRIME_32 is 0x9e370001; a shift by `32 - bits` is a division.
unfoldable pub hash32 : ℕ → ℕ → ℕ
hash32 val bits = (val * 0x9e370001) % 2 ^ 32 / 2 ^ (32 - bits)
