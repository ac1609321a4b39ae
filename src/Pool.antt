-- ===== src/Pool.antt =====
-- The pool of blocks of src/jmd_mem.c: `jmd_cache_mem_init` and `jmd_cache_mem_exit`. `none` is the
-- use of memory that was given back.
pub mod Blocks
pub mod Outcome
mod Examples
use jraid.Common.{
  ℕ, zero, suc, ◌+◌, ◌/◌, Bool, true, false, Option, none, some, List, [], ◌∷◌, ◌==◌, ◌>>=◌,
  if◌then◌else◌, sub32, wrap32, add64, mul64,
}
use jraid.Errno.{enomem}

-- The fields of `struct ioblk` that are written here: which object of the cache it is, and its page.
pub record IoBlk : Type 0 where
  pub id : ℕ
  pub page : ℕ

-- `memory_management_tsk`: NULL, a thread, the error that `kthread_run` gave, or a thread that ended.
pub data Task : Type 0 where
  null : Task
  runs : Task
  failed : Task
  ended : Task

-- The variables of the file, with what the kernel holds for it: the caches, the objects taken from
-- them and the pages. What is allocated is numbered by the request.
pub record Pool : Type 0 where
  pub cache_blk : Option ℕ
  pub cold : List IoBlk
  pub hot : List IoBlk
  pub total_blks : ℕ
  pub free_blks : ℕ
  pub memory_management_tsk : Task
  pub caches : List ℕ
  pub objects : List ℕ
  pub pages : List ℕ
  pub calls : ℕ

-- What is asked of the kernel: the pages of each node, which requests are met, and whether
-- `kthread_run` gives a thread.
pub record PoolKernel : Type 0 where
  pub node_present_pages : List ℕ
  pub allocates : ℕ → Bool
  pub starts : Bool

-- Giving back what a number stands for: it must be there.
unfoldable pub give_back : ℕ → List ℕ → Option (List ℕ)
give_back n [] = none
give_back n (x ∷ xs) =
    let rest = give_back n xs in if n == x then some xs else (do ys ← rest; some (x ∷ ys))

-- `calc_total_pages`, and the part of them that the pool takes, one in a hundred.
unfoldable pub calc_total_pages : List ℕ → ℕ
calc_total_pages [] = 0
calc_total_pages (n ∷ ns) = add64 n (calc_total_pages ns)

abbrev pub cache_ratio : ℕ
cache_ratio = 1

unfoldable pub pool_pages : PoolKernel → ℕ
pool_pages k = mul64 (calc_total_pages k.node_present_pages) cache_ratio / 100

-- One round of the loop of `jmd_cache_mem_init`: the pool, and whether it goes on.
unfoldable pub add_blk : PoolKernel → Pool → Pool × Bool
add_blk k m =
    let id = m.calls in
    let page = suc m.calls in
    if k.allocates id
    then if k.allocates page
      then (
        record m {
          cold = record { id = id; page = page } ∷ m.cold;
          objects = id ∷ m.objects;
          pages = page ∷ m.pages;
          total_blks = wrap32 (m.total_blks + 1);
          free_blks = wrap32 (m.free_blks + 1);
          calls = suc (suc m.calls);
        },
        true,
      )
      else (record m { calls = suc (suc m.calls) }, false)
    else (record m { calls = suc m.calls }, false)

unfoldable pub add_blks : PoolKernel → ℕ → Pool → Pool × Bool
add_blks k zero m = (m, true)
add_blks k (suc n) m =
    let (m1, more) = add_blk k m in let rest = add_blks k n m1 in if more then rest else (m1, false)

-- A block with its page goes back, as in each of the three loops that do that.
unfoldable pub free_blk : IoBlk → Pool → Option Pool
free_blk b m = do
  pages ← give_back b.page m.pages
  objects ← give_back b.id m.objects
  some (record m { pages = pages; objects = objects })

-- The loop at `err_alloc`.
unfoldable pub undo_blks : List IoBlk → Pool → Option Pool
undo_blks [] m = some (record m { cold = [] })
undo_blks (b ∷ bs) m = do
  m1 ← free_blk b m
  undo_blks bs (record m1 { total_blks = sub32 m.total_blks 1; free_blks = sub32 m.free_blks 1 })

-- `kmem_cache_destroy`
unfoldable pub destroy_cache : ℕ → Pool → Option Pool
destroy_cache c m = do caches ← give_back c m.caches; some (record m { caches = caches })

-- From `err_alloc` on.
unfoldable pub undo : ℕ → Pool → Option Pool
undo c m = do m1 ← undo_blks m.cold m; destroy_cache c m1

-- `jmd_cache_mem_init` after its loop, whose result the pair is. `ret` is what the variable `ret`
-- holds before it is written: a failed start of the thread does not write it.
unfoldable pub after_fill : PoolKernel → ℕ → ℕ → Pool × Bool → Option (Pool × ℕ)
after_fill k ret c (m, true) =
    if k.starts
    then some (record m { memory_management_tsk = runs }, 0)
    else (undo c (record m { memory_management_tsk = failed }) >>= λ m1. some (m1, ret))
after_fill k ret c (m, false) = undo c m >>= λ m1. some (m1, enomem)

-- `jmd_cache_mem_init`: the pool and the result.
unfoldable pub jmd_cache_mem_init : PoolKernel → ℕ → Pool → Option (Pool × ℕ)
jmd_cache_mem_init k ret m =
    let c = m.calls in
    let m1 = record m {
      cache_blk = some c;
      caches = c ∷ m.caches;
      total_blks = 0;
      free_blks = 0;
      calls = suc c;
    } in
    if k.allocates c
    then after_fill k ret c (add_blks k (pool_pages k) m1)
    else some (record m { cache_blk = none; calls = suc c }, enomem)

-- Stopping the thread: the pointer must be NULL or a thread that runs.
unfoldable pub stop_task : Task → Option Task
stop_task null = some null
stop_task runs = some ended
stop_task failed = none
stop_task ended = none

-- The loops of `jmd_cache_mem_exit`.
unfoldable pub free_blks_of : List IoBlk → Pool → Option Pool
free_blks_of [] m = some m
free_blks_of (b ∷ bs) m = do m1 ← free_blk b m; free_blks_of bs m1

-- The rest of `jmd_cache_mem_exit` once the thread is stopped.
unfoldable pub drop_pool : ℕ → Pool → Option Pool
drop_pool c m = do
  m1 ← free_blks_of m.cold m
  m2 ← free_blks_of m.hot (record m1 { cold = [] })
  destroy_cache c (record m2 { hot = [] })

unfoldable pub exit_cache : Option ℕ → Pool → Option Pool
exit_cache none m = some m
exit_cache (some c) m = do
  task ← stop_task m.memory_management_tsk
  drop_pool c (record m { memory_management_tsk = task })

-- `jmd_cache_mem_exit`
unfoldable pub jmd_cache_mem_exit : Pool → Option Pool
jmd_cache_mem_exit m = exit_cache m.cache_blk m
