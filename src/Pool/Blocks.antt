-- ===== src/Pool/Blocks.antt =====
-- How the blocks of the pool are allocated and given back.
use jraid.Common.{
  ℕ, zero, suc, ◌+◌, ◌≡◌, Bool, true, false, some, List, [], ◌∷◌, ◌>>=◌, arith, refl, ap, ◌∙◌,
  if◌then◌else◌, if_both, wrap32, sub32, length, ==_refl,
}
use jraid.Pool.{
  IoBlk, runs, ended, Pool, PoolKernel, give_back, add_blk, add_blks, free_blk, undo_blks,
  destroy_cache, undo, stop_task, free_blks_of, jmd_cache_mem_exit, exit_cache, drop_pool,
}

abbrev pub ids : List IoBlk → List ℕ
ids [] = []
ids (b ∷ bs) = b.id ∷ ids bs

abbrev pub pages_of : List IoBlk → List ℕ
pages_of [] = []
pages_of (b ∷ bs) = b.page ∷ pages_of bs

-- The kernel holds nothing for the pool, and the lists are empty.
pub record IsBlank (m : Pool) : Type 0 where
  pub cold : m.cold ≡ []
  pub hot : m.hot ≡ []
  pub caches : m.caches ≡ []
  pub objects : m.objects ≡ []
  pub pages : m.pages ≡ []

-- What the kernel holds for `m` is what its blocks are.
pub record Stock (m : Pool) : Type 0 where
  pub objects : m.objects ≡ ids m.cold
  pub pages : m.pages ≡ pages_of m.cold
  pub total : m.total_blks ≡ wrap32 (length m.cold)
  pub free : m.free_blks ≡ wrap32 (length m.cold)

-- What the loops leave alone.
pub record SameRest (m m' : Pool) : Type 0 where
  pub cache : m'.cache_blk ≡ m.cache_blk
  pub hot : m'.hot ≡ m.hot
  pub caches : m'.caches ≡ m.caches
  pub task : m'.memory_management_tsk ≡ m.memory_management_tsk

rest_refl : (m : Pool) → SameRest m m
rest_refl m = record { cache = refl; hot = refl; caches = refl; task = refl }

rest_trans : (a b c : Pool) → SameRest a b → SameRest b c → SameRest a c
rest_trans a b c p q = record {
  cache = q.cache ∙ p.cache;
  hot = q.hot ∙ p.hot;
  caches = q.caches ∙ p.caches;
  task = q.task ∙ p.task;
}

-- A stage of the filling: all but the blocks stays, and when it goes on there are `n` blocks more.
abbrev pub Filled : ℕ → Pool → Pool × Bool → Type 0
Filled n m t = Stock t.0 × SameRest m t.0 × (t.1 ≡ true → length t.0.cold ≡ n + length m.cold)

add_blk-Filled : (k : PoolKernel) (m : Pool) → Stock m → Filled 1 m (add_blk k m)
unfolding add_blk
add_blk-Filled k m s =
    let stay : (calls : ℕ) → Filled 1 m (record m { calls = calls }, false) = λ calls. (
      record { objects = s.objects; pages = s.pages; total = s.total; free = s.free },
      record { cache = refl; hot = refl; caches = refl; task = refl },
      λ h. ground (arith, h),
    ) in
    if_both (Filled 1 m) (k.allocates m.calls) _ _
      (if_both (Filled 1 m) (k.allocates (suc m.calls)) _ _
        (
          record {
            objects = ap (λ os. m.calls ∷ os) s.objects;
            pages = ap (λ ps. suc m.calls ∷ ps) s.pages;
            total = omega (arith, s.total);
            free = omega (arith, s.free);
          },
          record { cache = refl; hot = refl; caches = refl; task = refl },
          λ h. omega arith,
        )
        (stay (suc (suc m.calls))))
      (stay (suc m.calls))

pub add_blks-Filled : (k : PoolKernel) (n : ℕ) (m : Pool) → Stock m → Filled n m (add_blks k n m)
unfolding add_blks
add_blks-Filled k zero m s = (s, rest_refl m, λ h. omega arith)
add_blks-Filled k (suc n) m s =
    let (s1, r1, l1) = add_blk-Filled k m s in
    let m1 : Pool = (add_blk k m).0 in
    let (s2, r2, l2) = add_blks-Filled k n m1 s1 in
    let go : (more : Bool)
        → (add_blk k m).1 ≡ more
        → Filled (suc n) m (if more then add_blks k n m1 else (m1, false)) =
      λ b.
        elim b
          as (λ b.
            (add_blk k m).1 ≡ b → Filled (suc n) m (if b then add_blks k n m1 else (m1, false))) [
              | true ↦ λ more. (s2, rest_trans m m1 _ r1 r2, λ h. omega (arith, l2 h, l1 more))
              | false ↦ λ stop. (s1, r1, λ h. ground (arith, h))
            ] in
    go (add_blk k m).1 refl

give_back-first : (n : ℕ) (xs : List ℕ) → give_back n (n ∷ xs) ≡ some xs
unfolding give_back
give_back-first n xs = rw (==_refl n) refl

free_blk-first :
    (b : IoBlk) (m : Pool) (objects pages : List ℕ)
    → m.objects ≡ b.id ∷ objects
    → m.pages ≡ b.page ∷ pages
    → free_blk b m ≡ some (record m { pages = pages; objects = objects })
unfolding free_blk
free_blk-first b m objects pages o p =
    rw (p, give_back-first b.page pages, o, give_back-first b.id objects) refl

-- Both lists of the kernel are empty.
abbrev NoBlocks : Pool → Type 0
NoBlocks m = (m.objects ≡ []) × (m.pages ≡ [])

undo_blks-all :
    (bs : List IoBlk) (m : Pool)
    → m.objects ≡ ids bs
    → m.pages ≡ pages_of bs
    → (m' : Pool) × (undo_blks bs m ≡ some m') × NoBlocks m' × (m'.cold ≡ []) × SameRest m m'
unfolding undo_blks
undo_blks-all [] m o p = (
  record m { cold = [] },
  refl,
  (o, p),
  refl,
  record { cache = refl; hot = refl; caches = refl; task = refl },
)
undo_blks-all (b ∷ bs) m o p =
    let (m', e, none_left, cold, r) =
      undo_blks-all bs
        (record m {
          pages = pages_of bs;
          objects = ids bs;
          total_blks = sub32 m.total_blks 1;
          free_blks = sub32 m.free_blks 1;
        })
        refl refl in
    (
      m',
      ap
            (λ t. t >>= λ m1.
              undo_blks bs
                (record m1 { total_blks = sub32 m.total_blks 1; free_blks = sub32 m.free_blks 1 }))
            (free_blk-first b m (ids bs) (pages_of bs) o p)
          ∙ e,
      none_left,
      cold,
      record { cache = r.cache; hot = r.hot; caches = r.caches; task = r.task },
    )

free_blks_of-all :
    (bs : List IoBlk) (m : Pool)
    → m.objects ≡ ids bs
    → m.pages ≡ pages_of bs
    → (m' : Pool) × (free_blks_of bs m ≡ some m') × NoBlocks m' × SameRest m m'
unfolding free_blks_of
free_blks_of-all [] m o p = (m, refl, (o, p), rest_refl m)
free_blks_of-all (b ∷ bs) m o p =
    let (m', e, none_left, r) =
      free_blks_of-all bs (record m { pages = pages_of bs; objects = ids bs }) refl refl in
    (
      m',
      ap (λ t. t >>= λ m1. free_blks_of bs m1) (free_blk-first b m (ids bs) (pages_of bs) o p) ∙ e,
      none_left,
      record { cache = r.cache; hot = r.hot; caches = r.caches; task = r.task },
    )

drop_pool-IsBlank :
    (m : Pool) (c : ℕ)
    → m.caches ≡ c ∷ []
    → m.hot ≡ []
    → m.objects ≡ ids m.cold
    → m.pages ≡ pages_of m.cold
    → (m' : Pool) × (drop_pool c m ≡ some m') × IsBlank m'
unfolding drop_pool free_blks_of destroy_cache
drop_pool-IsBlank m c caches hot o p =
    let (m1, e, (objects, pages), r) = free_blks_of-all m.cold m o p in
    let m2 : Pool = record m1 { cold = []; hot = []; caches = [] } in
    (
      m2,
      ap
            (λ t. t >>= λ u. free_blks_of m.hot (record u { cold = [] }) >>= λ v.
              destroy_cache c (record v { hot = [] }))
            e
          ∙ ap
              (λ hs. free_blks_of hs (record m1 { cold = [] }) >>= λ v.
                destroy_cache c (record v { hot = [] }))
              hot
          ∙ ap (λ t. t >>= λ cs. some (record m1 { cold = []; hot = []; caches = cs }))
              (ap (give_back c) (r.caches ∙ caches) ∙ give_back-first c []),
      record { cold = refl; hot = refl; caches = refl; objects = objects; pages = pages },
    )

-- `jmd_cache_mem_exit` of a pool whose thread runs.
pub jmd_cache_mem_exit-IsBlank :
    (m : Pool) (c : ℕ)
    → m.cache_blk ≡ some c
    → m.memory_management_tsk ≡ runs
    → m.caches ≡ c ∷ []
    → m.hot ≡ []
    → m.objects ≡ ids m.cold
    → m.pages ≡ pages_of m.cold
    → (m' : Pool) × (jmd_cache_mem_exit m ≡ some m') × IsBlank m'
unfolding jmd_cache_mem_exit exit_cache stop_task
jmd_cache_mem_exit-IsBlank m c cache task caches hot o p =
    let (m', e, blank) =
      drop_pool-IsBlank (record m { memory_management_tsk = ended }) c caches hot o p in
    (
      m',
      ap (λ t. exit_cache t m) cache
          ∙ ap (λ t. stop_task t >>= λ u. drop_pool c (record m { memory_management_tsk = u })) task
          ∙ e,
      blank,
    )

pub undo-IsBlank :
    (c : ℕ) (m : Pool)
    → m.caches ≡ c ∷ []
    → m.hot ≡ []
    → m.objects ≡ ids m.cold
    → m.pages ≡ pages_of m.cold
    → (m' : Pool) × (undo c m ≡ some m')
      × IsBlank m'
      × (m'.memory_management_tsk ≡ m.memory_management_tsk)
      × (m'.cache_blk ≡ m.cache_blk)
unfolding undo destroy_cache
undo-IsBlank c m caches hot o p =
    let (m1, e, (objects, pages), cold, r) = undo_blks-all m.cold m o p in
    let m2 : Pool = record m1 { caches = [] } in
    (
      m2,
      rw (e, r.caches, caches, give_back-first c []) refl,
      record { cold = cold; hot = r.hot ∙ hot; caches = refl; objects = objects; pages = pages },
      r.task,
      r.cache,
    )
