-- ===== src/Pool/Examples.antt =====
-- A pool of three blocks, and the theorem on it.
use jraid.Common.{ℕ, ◌≡◌, ◌⊎◌, none, some, [], ◌∷◌, refl, true}
use jraid.Pool.{Pool, PoolKernel, null, jmd_cache_mem_init}
use jraid.Pool.Blocks.{IsBlank}
use jraid.Pool.Outcome.{IsFull, IsUndone, jmd_cache_mem_init-outcome}

abbrev kernel : PoolKernel
kernel = record { node_present_pages = 150 ∷ 200 ∷ []; allocates = λ n. true; starts = true }

abbrev unused : Pool
unused = record {
  cache_blk = none;
  cold = [];
  hot = [];
  total_blks = 0;
  free_blks = 0;
  memory_management_tsk = null;
  caches = [];
  objects = [];
  pages = [];
  calls = 0;
}

unused-IsBlank : IsBlank unused
unused-IsBlank = record { cold = refl; hot = refl; caches = refl; objects = refl; pages = refl }

jmd_cache_mem_init-outcome_example :
    (m' : Pool) × (e : ℕ) × (jmd_cache_mem_init kernel 7 unused ≡ some (m', e))
    × (((e ≡ 0) × IsFull kernel m') ⊎ IsUndone 7 m' e)
jmd_cache_mem_init-outcome_example = jmd_cache_mem_init-outcome kernel 7 unused unused-IsBlank
