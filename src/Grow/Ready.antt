-- ===== src/Grow/Ready.antt =====
-- The cache after a growth, of which any of the allocations may fail.
use jraid.Common.{
  ℕ, zero, suc, ◌+◌, ◌*◌, ◌^◌, ◌≤◌, ◌<◌, ◌≡◌, ◌==◌, Bool, true, false, List, [], ◌∷◌, arith, refl,
  ap, ◌∙◌, Bool-cases, inl, inr, length, length-append,
}
use jraid.Stripe.{Dev, Conf}
use jraid.Request.Total.{IsReady}
use jraid.Grow.{Grown, grow_buffers, Growth, grow_loop, grow_stripes}
use jraid.Grow.Stripe.{
  added, added-nr_stripes, added-inactive_list, added-layout, added-IsReady, added-IsPaged, IsPaged,
  AllPaged-grow_buffers, AllIdle-grow_buffers, length-grow_buffers,
}

-- What a run of the loop comes to, from the cache `c`, for `num` stripes.
record Outgrown (c : Conf) (num : ℕ) (g : Growth) : Type 0 where
  ready : IsReady g.conf
  paged : IsPaged g.conf
  all : g.done ≡ (g.conf.nr_stripes == c.nr_stripes + num)
  bound : g.conf.nr_stripes ≤ c.nr_stripes + num
  listed : length g.conf.inactive_list + c.nr_stripes ≡ length c.inactive_list + g.conf.nr_stripes

stop_here :
    (c : Conf) (num next : ℕ) (devs : List Dev)
    → IsReady c
    → IsPaged c
    → Outgrown c (suc num) (record { conf = c; done = false; next = next; returned = devs })
stop_here c num next devs r p = record {
  ready = r;
  paged = p;
  all = ground arith;
  bound = omega arith;
  listed = refl;
}

go_on :
    (c : Conf) (devs : List Dev) (num : ℕ) (g : Growth)
    → IsReady c
    → c.nr_stripes + 1 < 2 ^ 31
    → Outgrown (added c devs) num g
    → Outgrown c (suc num) g
go_on c devs num g r low rest =
    let more = added-nr_stripes c devs in
    record {
      ready = rest.ready;
      paged = rest.paged;
      all = rest.all ∙ ap (λ k. g.conf.nr_stripes == k) (omega (arith, more));
      bound = omega (arith, rest.bound, more);
      listed = omega (
        arith,
        rest.listed,
        more,
        ap length (added-inactive_list c devs),
        length-append c.inactive_list (c.nr_stripes ∷ []),
      );
    }

grow_loop-Outgrown :
    (ok : ℕ → Bool) (n num : ℕ) (c : Conf)
    → IsReady c
    → IsPaged c
    → c.nr_stripes + num < 2 ^ 31
    → Outgrown c num (grow_loop ok n num c)
unfolding grow_loop added
grow_loop-Outgrown ok n zero c r p h = record {
  ready = r;
  paged = p;
  all = ground arith;
  bound = omega arith;
  listed = refl;
}
grow_loop-Outgrown ok n (suc num) c r p h =
    let k : ℕ = c.layout.raid_disks in
    let grown : Grown = grow_buffers ok (suc n) k in
    let low : c.nr_stripes + 1 < 2 ^ 31 = omega arith in
    elim (Bool-cases (ok n)) [
      | inr e ↦ rw e (stop_here c num (suc n) [] r p)
      | inl e ↦ elim (Bool-cases grown.complete) [
        | inr f ↦ rw (e, f) (stop_here c num _ _ r p)
        | inl f ↦
            rw (e, f)
              (go_on c grown.devs num _ r low (
                grow_loop-Outgrown ok grown.next num (added c grown.devs)
                  (added-IsReady c grown.devs r low (AllIdle-grow_buffers ok (suc n) k)
                    (length-grow_buffers ok (suc n) k))
                  (added-IsPaged c grown.devs r low p (AllPaged-grow_buffers ok (suc n) k f))
                  (omega (arith, added-nr_stripes c grown.devs))))
      ]
    ]

-- `grow_stripes` leaves a cache that can serve requests, whose devices have their pages, if it was
-- given one and the stripes stay below 2^31, whichever allocations fail. For a positive `num` its
-- result is 0 exactly if the cache has `num` stripes more; it never has more than that, and there
-- are as many inactive ones more.
pub grow_stripes-IsReady :
    (ok : ℕ → Bool) (n num : ℕ) (c : Conf)
    → IsReady c
    → IsPaged c
    → 0 < num
    → c.nr_stripes + num < 2 ^ 31
    → let g = grow_stripes ok n num c in
      IsReady g.conf
      × IsPaged g.conf
      × (g.done ≡ (g.conf.nr_stripes == c.nr_stripes + num))
      × (g.conf.nr_stripes ≤ c.nr_stripes + num)
      × (length g.conf.inactive_list + c.nr_stripes ≡ length c.inactive_list + g.conf.nr_stripes)
unfolding grow_stripes
grow_stripes-IsReady ok n num c r p asked h = elim (Bool-cases (ok n)) [
  | inl e ↦
      let o = grow_loop-Outgrown ok (suc n) num c r p h in
      rw e (o.ready, o.paged, o.all, o.bound, o.listed)
  | inr e ↦ rw e (r, p, ground arith, omega arith, refl)
]

next-grow_buffers :
    (ok : ℕ → Bool) (n num : ℕ)
    → ((i : ℕ) → ok i ≡ true)
    → ((grow_buffers ok n num).complete ≡ true) × ((grow_buffers ok n num).next ≡ n + num)
unfolding grow_buffers
next-grow_buffers ok n zero h = (refl, omega arith)
next-grow_buffers ok n (suc num) h = ground (arith, h n, next-grow_buffers ok (suc n) num h)

next-grow_loop :
    (ok : ℕ → Bool) (n num : ℕ) (c : Conf)
    → ((i : ℕ) → ok i ≡ true)
    → ((grow_loop ok n num c).done ≡ true)
      × ((grow_loop ok n num c).next ≡ n + num * (c.layout.raid_disks + 1))
      × ((grow_loop ok n num c).conf.nr_stripes ≡ c.nr_stripes + num)
unfolding grow_loop added
next-grow_loop ok n zero c h = (refl, omega arith, omega arith)
next-grow_loop ok n (suc num) c h =
    let k : ℕ = c.layout.raid_disks in
    let grown : Grown = grow_buffers ok (suc n) k in
    let (f, g) = next-grow_buffers ok (suc n) k h in
    let (d, e, m) = next-grow_loop ok grown.next num (added c grown.devs) h in
    let more = added-nr_stripes c grown.devs in
    let same = ap (λ l. l.raid_disks) (added-layout c grown.devs) in
    rw (h n, f)
      (d, e ∙ ap (λ z. grown.next + num * (z + 1)) same ∙ omega (arith, g), m ∙ omega (arith, more))

-- With memory enough, `grow_stripes` adds all the stripes and returns 0, after one allocation for
-- the slab cache, and one for each stripe and each of its pages.
pub grow_stripes-enough :
    (ok : ℕ → Bool) (n num : ℕ) (c : Conf)
    → ((i : ℕ) → ok i ≡ true)
    → ((grow_stripes ok n num c).done ≡ true)
      × ((grow_stripes ok n num c).next ≡ n + 1 + num * (c.layout.raid_disks + 1))
      × ((grow_stripes ok n num c).conf.nr_stripes ≡ c.nr_stripes + num)
unfolding grow_stripes
grow_stripes-enough ok n num c h =
    let (d, e, m) = next-grow_loop ok (suc n) num c h in rw (h n) (d, e ∙ omega arith, m)

-- Growing keeps the layout.
grow_loop-layout :
    (ok : ℕ → Bool) (n num : ℕ) (c : Conf) → (grow_loop ok n num c).conf.layout ≡ c.layout
unfolding grow_loop added
grow_loop-layout ok n zero c = refl
grow_loop-layout ok n (suc num) c =
    let grown : Grown = grow_buffers ok (suc n) c.layout.raid_disks in
    let later =
      grow_loop-layout ok grown.next num (added c grown.devs) ∙ added-layout c grown.devs in
    elim (Bool-cases (ok n)) [
      | inr e ↦ rw e refl
      | inl e ↦ elim (Bool-cases grown.complete) [
        | inr f ↦ rw (e, f) refl
        | inl f ↦ rw (e, f) later
      ]
    ]

pub grow_stripes-layout :
    (ok : ℕ → Bool) (n num : ℕ) (c : Conf) → (grow_stripes ok n num c).conf.layout ≡ c.layout
unfolding grow_stripes
grow_stripes-layout ok n num c = elim (Bool-cases (ok n)) [
  | inl e ↦ rw e (grow_loop-layout ok (suc n) num c)
  | inr e ↦ rw e refl
]
