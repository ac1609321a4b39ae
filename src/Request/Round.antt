-- ===== src/Request/Round.antt =====
-- One round of the thread `jraid5d`: what it does to its stripe and to the others.
use jraid.Common.{
  ℕ, suc, ◌+◌, ◌^◌, ◌<◌, ◌≡◌, ◌≢◌, true, some, List, [], ◌∷◌, ◌++◌, map, length, if◌then◌else◌,
  arith, refl, ap, ◌∙◌, sym, subst, Bool-cases, inl, inr, occ, remove, ==_refl, ◌==◌,
}
use jraid.Stripe.{Conf}
use jraid.Cache.{hold, list_del, release_stripe}
use jraid.Cache.Invariant.{Inv}
use jraid.Cache.Release.{release_stripe-Inv, count-release_stripe}
use jraid.Cache.Acquire.{reused-listed, reused-Inv}
use jraid.Handle.{Request, handle_stripe, schedule, modify_at, mark_parity, scan_dev}
use jraid.Cache.Release.{devs-release_stripe}
use jraid.Handle.Plan.{
  bios, bios-handle_stripe, handle_stripe-Inv, count-handle_stripe, length-requests,
}
use jraid.Request.{jraid5d_round}

-- The stripe taken off its list and held.
taken : Conf → ℕ → Conf
taken c id = hold (list_del c id) id

-- The cache after a round, and what the round submits.
pub after : Conf → ℕ → Conf
after c id = release_stripe (handle_stripe (taken c id) id).0 id

pub asked : Conf → ℕ → List Request
asked c id = (handle_stripe (taken c id) id).1

-- No stripe has so many devices that its count could pass 32 bits.
abbrev pub FewDevices : Conf → Type 0
FewDevices c = (s : ℕ) → length (c.stripes s).devs < 2 ^ 31

-- The devices of the stripe after a round are what the last loop of `handle_stripe` leaves.
pub after-devs :
    (c : Conf) (id : ℕ)
    → let sh = c.stripes id in
      ((after c id).stripes id).devs
      ≡ (schedule c.jrdev sh.sector 0 (modify_at sh.pd_idx mark_parity (map scan_dev sh.devs))).devs
unfolding after taken handle_stripe
after-devs c id =
    devs-release_stripe (handle_stripe (taken c id) id).0 id id
    ∙ rw (taken, handle_stripe, ==_refl id) refl

pub asked_same : (c : Conf) (id : ℕ) → asked c id ≡ (handle_stripe c id).1
unfolding asked taken handle_stripe
asked_same c id = rw (asked, taken, handle_stripe, ==_refl id) refl

released_list :
    (h : Conf) (id n : ℕ)
    → (h.stripes id).count ≡ n + 1
    → n + 1 < 2 ^ 32
    → (h.stripes id).handle ≡ true
    → (release_stripe h id).handle_list
      ≡ (if n == 0 then h.handle_list ++ (id ∷ []) else h.handle_list)
unfolding release_stripe
released_list h id n e low b = ground arith

handle_bit :
    (c : Conf) (id : ℕ)
    → (c.stripes id).handle ≡ true
    → ((handle_stripe (taken c id) id).0.stripes id).handle ≡ true
unfolding handle_stripe taken
handle_bit c id h = ground arith

length-map {ℓ κ} :
    {A : Type ℓ} {B : Type κ} (f : A → B) (xs : List A) → length (map f xs) ≡ length xs
length-map f [] = refl
length-map f (x ∷ xs) = ap suc (length-map f xs)

module _ (c : Conf) (id : ℕ) (v : Inv c) (few : FewDevices c)
    (listed : 0 < occ id c.handle_list) where
  taken-Inv : Inv (taken c id)
  unfolding taken
  taken-Inv =
      let n : (c.stripes id).count ≡ 0 = ground (arith, v.place id) in
      let low : id < c.nr_stripes = ground (arith, v.place id) in
      subst Inv (reused-listed c id n (v.work id listed)) (reused-Inv c id v low (omega (arith, n)))

  taken-count : ((taken c id).stripes id).count ≡ 1
  unfolding taken
  taken-count = ground (arith, v.place id)

  taken_devices : ((taken c id).stripes id).devs ≡ (c.stripes id).devs
  unfolding taken
  taken_devices = ground arith

  room : ((taken c id).stripes id).count + length (asked c id) < 2 ^ 32
  unfolding taken asked
  room =
      omega (arith, taken-count, ap length taken_devices, few id, length-requests (taken c id) id)

  pub round_eq : jraid5d_round c id ≡ some (after c id, asked c id)
  unfolding jraid5d_round taken after asked
  round_eq = ground (arith, taken-count)

  pub after-Inv : Inv (after c id)
  unfolding after asked
  after-Inv =
      release_stripe-Inv _ id
        (handle_stripe-Inv (taken c id) id taken-Inv (omega (arith, taken-count)) room)
        (omega (
          arith,
          taken-count,
          count-handle_stripe (taken c id) id taken-Inv (omega (arith, taken-count)) room,
        ))

  after-count : ((after c id).stripes id).count ≡ length (asked c id)
  unfolding after asked
  after-count =
      let held : 0 < ((taken c id).stripes id).count = omega (arith, taken-count) in
      let users = count-handle_stripe (taken c id) id taken-Inv held room in
      let h = handle_stripe-Inv (taken c id) id taken-Inv held room in
      omega (arith, users, taken-count, count-release_stripe _ id h (omega (arith, users)))

  -- The list after a round: the stripe is back on it exactly if nothing was asked of the disks.
  pub after-handle_list : (after c id).handle_list ≡ (
      if length (asked c id) == 0
      then remove id c.handle_list ++ (id ∷ [])
      else remove id c.handle_list)
  unfolding after asked taken handle_stripe
  after-handle_list =
      let held : 0 < ((taken c id).stripes id).count = omega (arith, taken-count) in
      let users = count-handle_stripe (taken c id) id taken-Inv held room in
      released_list (handle_stripe (taken c id) id).0 id (length (asked c id))
        (omega (arith, users, taken-count)) (omega (arith, room, taken-count))
        (handle_bit c id (v.work id listed))

  pub after-other : (t : ℕ) → t ≢ id → (after c id).stripes t ≡ c.stripes t
  unfolding after taken release_stripe handle_stripe
  after-other t ne = ground arith

  pub after-jrdev : (after c id).jrdev ≡ c.jrdev
  unfolding after taken release_stripe handle_stripe
  after-jrdev = ground arith

  after-bit : ((after c id).stripes id).handle ≡ true
  unfolding after taken release_stripe handle_stripe
  after-bit = ground (arith, v.work id)

  -- A round of `jraid5d` on a stripe of its list, in a well formed cache whose stripes have fewer
  -- than 2^31 devices each, does not stop at BUG() and keeps the cache well formed. The stripe
  -- keeps STRIPE_HANDLE and is held once for each request to the disks; with none, it goes back to
  -- the end of the list that it was taken from.
  jraid5d_round-requeue :
      (c' : Conf) × (requests : List Request) × (jraid5d_round c id ≡ some (c', requests))
      × Inv c'
      × ((c'.stripes id).handle ≡ true)
      × ((c'.stripes id).count ≡ length requests)
      × (c'.handle_list ≡ (
          if length requests == 0
          then remove id c.handle_list ++ (id ∷ [])
          else remove id c.handle_list))
  jraid5d_round-requeue =
      (after c id, asked c id, round_eq, after-Inv, after-bit, after-count, after-handle_list)

  after-devices : length ((after c id).stripes id).devs ≡ length (c.stripes id).devs
  unfolding after
  after-devices =
      ap length (devs-release_stripe (handle_stripe (taken c id) id).0 id id)
      ∙ sym (length-map bios _)
      ∙ ap length (bios-handle_stripe (taken c id) id)
      ∙ length-map bios _
      ∙ ap length taken_devices

  pub after-FewDevices : FewDevices (after c id)
  after-FewDevices t = elim (Bool-cases (t == id)) [
    | inl e ↦ ground (arith, after-devices, few id)
    | inr e ↦ subst (λ h. length h.devs < 2 ^ 31) (sym (after-other t (ground arith))) (few t)
  ]

pub requests-cong :
    (c c' : Conf) (s : ℕ)
    → c'.stripes s ≡ c.stripes s
    → c'.jrdev ≡ c.jrdev
    → (handle_stripe c' s).1 ≡ (handle_stripe c s).1
unfolding handle_stripe
requests-cong c c' s e j = cc
