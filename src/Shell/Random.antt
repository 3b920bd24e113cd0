-- ===== src/Shell/Random.antt =====
-- 4_Userland/shellCodeModule/2_libraries/random.c: numbers drawn from the tick counter.
use g21_tp2_so_1c.Base.{ℕ, ◌+◌, ◌-◌, ◌*◌, ◌%◌, ◌^◌}

-- `tick` is what `sys_tick` returns; the mask keeps 31 bits.
unfoldable pub get_random_int : ℕ → ℕ → ℕ → ℕ
get_random_int tick min max =
    let seed = (tick * 1103515245 + 12345) % 2 ^ 32 % 2 ^ 31 in min + seed % (max - min + 1)
