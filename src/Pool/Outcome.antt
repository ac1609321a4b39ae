-- ===== src/Pool/Outcome.antt =====
-- What `jmd_cache_mem_init` comes to, and `jmd_cache_mem_exit` after it.
use jraid.Common.{
  ℕ, suc, ◌+◌, ◌≡◌, ◌⊎◌, inl, inr, Bool, true, false, Option, none, some, [], ◌∷◌, ◌>>=◌, arith,
  refl, sym, ap, ◌∙◌, if_both, wrap32, length,
}
use jraid.Errno.{enomem}
use jraid.Pool.{
  Task, runs, failed, Pool, PoolKernel, give_back, pool_pages, add_blks, destroy_cache,
  jmd_cache_mem_init, stop_task, free_blks_of, jmd_cache_mem_exit, exit_cache, drop_pool,
  after_fill,
}
use jraid.Pool.Blocks.{
  IsBlank, Stock, ids, pages_of, undo-IsBlank, jmd_cache_mem_exit-IsBlank, add_blks-Filled,
}

-- A pool that is full, whose `exit` gives back all there is.
pub record IsFull (k : PoolKernel) (m : Pool) : Type 0 where
  pub task : m.memory_management_tsk ≡ runs
  pub count : length m.cold ≡ pool_pages k
  pub total : m.total_blks ≡ wrap32 (pool_pages k)
  pub free : m.free_blks ≡ wrap32 (pool_pages k)
  pub exits : (m' : Pool) × (jmd_cache_mem_exit m ≡ some m') × IsBlank m'

-- The pool after `jmd_cache_mem_init` failed: nothing is held. When there was no cache `exit` does
-- nothing, else it uses what was given back.
pub record IsUndone (ret : ℕ) (m : Pool) (e : ℕ) : Type 0 where
  pub blank : IsBlank m
  pub result :
      ((e ≡ enomem) × (jmd_cache_mem_exit m ≡ some m))
      ⊎ (((e ≡ enomem) ⊎ (e ≡ ret)) × (jmd_cache_mem_exit m ≡ none))

drop_pool-none : (m : Pool) (c : ℕ) → IsBlank m → drop_pool c m ≡ none
unfolding drop_pool free_blks_of destroy_cache give_back
drop_pool-none m c b =
    ap
      (λ bs. free_blks_of bs m >>= λ u. free_blks_of m.hot (record u { cold = [] }) >>= λ v.
        destroy_cache c (record v { hot = [] }))
      b.cold
    ∙ ap
        (λ bs.
          free_blks_of bs (record m { cold = [] }) >>= λ v. destroy_cache c (record v { hot = [] }))
        b.hot
    ∙ ap (λ cs. give_back c cs >>= λ left. some (record m { cold = []; hot = []; caches = left }))
        b.caches

exit-none : (m : Pool) (c : ℕ) → m.cache_blk ≡ some c → IsBlank m → jmd_cache_mem_exit m ≡ none
unfolding jmd_cache_mem_exit exit_cache
exit-none m c cache b = ap (λ t. exit_cache t m) cache ∙ stopped (stop_task m.memory_management_tsk)
  where
    stopped :
        (o : Option Task)
        → ◌>>=◌ {B = Pool} o (λ u. drop_pool c (record m { memory_management_tsk = u })) ≡ none
    stopped none = refl
    stopped (some u) =
        drop_pool-none (record m { memory_management_tsk = u }) c
          (record {
            cold = b.cold;
            hot = b.hot;
            caches = b.caches;
            objects = b.objects;
            pages = b.pages;
          })

-- The call ends, with a full pool or with none.
abbrev Ends : PoolKernel → ℕ → Option (Pool × ℕ) → Type 0
Ends k ret o =
    (m' : Pool) × (e : ℕ) × (o ≡ some (m', e)) × (((e ≡ 0) × IsFull k m') ⊎ IsUndone ret m' e)

after_fill-ends :
    (k : PoolKernel) (ret : ℕ) (c : ℕ) (m : Pool) (filled : Bool)
    → Stock m
    → m.cache_blk ≡ some c
    → m.caches ≡ c ∷ []
    → m.hot ≡ []
    → (filled ≡ true → length m.cold ≡ pool_pages k)
    → Ends k ret (after_fill k ret c (m, filled))
unfolding after_fill
after_fill-ends k ret c m true s cache caches hot count =
    let (m1, e, blank, task, own) =
      undo-IsBlank c (record m { memory_management_tsk = failed }) caches hot s.objects s.pages in
    if_both (Ends k ret) k.starts _ _
      (
        record m { memory_management_tsk = runs },
        0,
        refl,
        inl (
          refl,
          record {
            task = refl;
            count = count refl;
            total = s.total ∙ ap wrap32 (count refl);
            free = s.free ∙ ap wrap32 (count refl);
            exits =
                jmd_cache_mem_exit-IsBlank (record m { memory_management_tsk = runs }) c cache refl
                  caches hot s.objects s.pages;
          },
        ),
      )
      (
        m1,
        ret,
        ap (λ o. o >>= λ m1. some (m1, ret)) e,
        inr (record { blank = blank; result = inr (inr refl, exit-none m1 c (own ∙ cache) blank) }),
      )
after_fill-ends k ret c m false s cache caches hot count =
    let (m1, e, blank, task, own) = undo-IsBlank c m caches hot s.objects s.pages in
    (
      m1,
      enomem,
      ap (λ o. o >>= λ m1. some (m1, enomem)) e,
      inr (record { blank = blank; result = inr (inl refl, exit-none m1 c (own ∙ cache) blank) }),
    )

-- `jmd_cache_mem_init`, on a pool that holds nothing, always ends without using memory that was
-- given back. Either the result is 0, the thread runs, the pool has one block for each page it was
-- to take, as both counters say in 32 bits, and `jmd_cache_mem_exit` then gives back every block,
-- page and cache. Or all is given back already. Without a cache the result is -ENOMEM then, and
-- `jmd_cache_mem_exit` does nothing; else the result is -ENOMEM, or what `ret` was before it was
-- written, and `jmd_cache_mem_exit` uses what was given back.
pub jmd_cache_mem_init-outcome :
    (k : PoolKernel) (ret : ℕ) (m : Pool)
    → IsBlank m
    → (m' : Pool) × (e : ℕ) × (jmd_cache_mem_init k ret m ≡ some (m', e))
      × (((e ≡ 0) × IsFull k m') ⊎ IsUndone ret m' e)
unfolding jmd_cache_mem_init jmd_cache_mem_exit exit_cache
jmd_cache_mem_init-outcome k ret m blank =
    let c : ℕ = m.calls in
    let m1 : Pool = record m {
      cache_blk = some c;
      caches = c ∷ m.caches;
      total_blks = 0;
      free_blks = 0;
      calls = suc c;
    } in
    let stock : Stock m1 = record {
      objects = blank.objects ∙ ap ids (sym blank.cold);
      pages = blank.pages ∙ ap pages_of (sym blank.cold);
      total = ap (λ bs. wrap32 (length bs)) (sym blank.cold);
      free = ap (λ bs. wrap32 (length bs)) (sym blank.cold);
    } in
    let (s, r, count) = add_blks-Filled k (pool_pages k) m1 stock in
    let (m2, filled) = add_blks k (pool_pages k) m1 in
    if_both (Ends k ret) (k.allocates c) _ _
      (after_fill-ends k ret c m2 filled s r.cache (r.caches ∙ ap (λ cs. c ∷ cs) blank.caches)
        (r.hot ∙ blank.hot)
        (λ h. count h ∙ ap (λ bs. pool_pages k + length bs) blank.cold ∙ omega arith))
      (
        record m { cache_blk = none; calls = suc c },
        enomem,
        refl,
        inr (record {
          blank = record {
            cold = blank.cold;
            hot = blank.hot;
            caches = blank.caches;
            objects = blank.objects;
            pages = blank.pages;
          };
          result = inl (refl, no_cache);
        }),
      )
  where
    no_cache :
        (let m' : Pool = record m { cache_blk = none; calls = suc m.calls } in
          jmd_cache_mem_exit m' ≡ some m')
    no_cache = refl
