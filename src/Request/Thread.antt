-- ===== src/Request/Thread.antt =====
-- The run of the thread `jraid5d`: when it ends, and when it does not.
use jraid.Common.{
  ℕ, zero, suc, ◌<◌, ◌≡◌, Option, none, some, List, [], ◌∷◌, length, arith, refl, ap, ◌∙◌, sym,
  subst, inl, inr, occ, remove, true, false, ◌⊎◌, map, Bool-cases, ==_iff, ◌==◌, occ-append,
  occ-remove,
}
use jraid.Stripe.{Dev, Conf}
use jraid.Cache.Invariant.{Inv}
use jraid.Cache.Acquire.{List-cases}
use jraid.Handle.{Request, handle_stripe, schedule, scan_dev, mark_parity, modify_at, take_want}
use jraid.Cache.{is_null}
use jraid.Request.{drained, stopped, spinning, jraid5d_round, jraid5d}
use jraid.Request.Round.{
  after, asked, FewDevices, asked_same, after-devs, round_eq, after-Inv, after-handle_list,
  after-other, after-jrdev, after-FewDevices,
}

run-cons :
    (fuel : ℕ) (c c' : Conf) (id : ℕ) (rest : List ℕ) (requests : List Request)
    → c.handle_list ≡ id ∷ rest
    → jraid5d_round c id ≡ some (c', requests)
    → jraid5d (suc fuel) c ≡ jraid5d fuel c'
unfolding jraid5d
run-cons fuel c c' id rest requests e r =
    ap
      (λ l. elim l [
        | [] ↦ drained c
        | id ∷ _ ↦ elim (jraid5d_round c id) [ none ↦ stopped | some (c', _) ↦ jraid5d fuel c' ]
      ])
      e
    ∙ ap (λ o. elim o [ none ↦ stopped | some (c', _) ↦ jraid5d fuel c' ]) r

-- Each stripe of the list has something to ask of a disk.
abbrev pub AllAsking : Conf → Type 0
AllAsking c = (s : ℕ) → 0 < occ s c.handle_list → 0 < length (handle_stripe c s).1

-- Nothing waits for the device, and nothing is wanted of it.
abbrev pub Rests : Dev → Type 0
Rests d =
    (is_null d.toread ≡ true)
    × (is_null d.towrite ≡ true)
    × (d.flags.wantread ≡ false)
    × (d.flags.wantwrite ≡ false)

-- What waits, from the device `i` on, waits for devices that have no disk.
abbrev pub WaitsForLost : (ℕ → Option ℕ) → ℕ → List Dev → Type 0
WaitsForLost jrdev i [] = Unit {0}
WaitsForLost jrdev i (d ∷ ds) = ((jrdev i ≡ none) ⊎ Rests d) × WaitsForLost jrdev (suc i) ds

scan_dev-Rests : (d : Dev) → Rests d → Rests (scan_dev d)
unfolding scan_dev
scan_dev-Rests d h = ground (arith, h)

scan-WaitsForLost :
    (jrdev : ℕ → Option ℕ) (i : ℕ) (ds : List Dev)
    → WaitsForLost jrdev i ds
    → WaitsForLost jrdev i (map scan_dev ds)
scan-WaitsForLost jrdev i [] h = tt
scan-WaitsForLost jrdev i (d ∷ ds) (inl lost, h) = (inl lost, scan-WaitsForLost jrdev (suc i) ds h)
scan-WaitsForLost jrdev i (d ∷ ds) (inr rests, h) =
    (inr (scan_dev-Rests d rests), scan-WaitsForLost jrdev (suc i) ds h)

parity-WaitsForLost :
    (jrdev : ℕ → Option ℕ) (i p : ℕ) (ds : List Dev)
    → WaitsForLost jrdev i ds
    → WaitsForLost jrdev i (modify_at p mark_parity ds)
parity-WaitsForLost jrdev i p [] h = tt
parity-WaitsForLost jrdev i zero (d ∷ ds) (inl lost, h) = (inl lost, h)
parity-WaitsForLost jrdev i zero (d ∷ ds) (inr rests, h) = (inr rests, h)
parity-WaitsForLost jrdev i (suc p) (d ∷ ds) (here, h) =
    (here, parity-WaitsForLost jrdev (suc i) p ds h)

-- A device without a disk is asked nothing, and one that rests stays as it is.
schedule-WaitsForLost :
    (jrdev : ℕ → Option ℕ) (sector i : ℕ) (ds : List Dev)
    → WaitsForLost jrdev i ds
    → let s = schedule jrdev sector i ds in (s.requests ≡ []) × WaitsForLost jrdev i s.devs
unfolding schedule take_want
schedule-WaitsForLost jrdev sector i [] h = (refl, tt)
schedule-WaitsForLost jrdev sector i (d ∷ ds) (inl lost, h) =
    let (none_asked, rest) = schedule-WaitsForLost jrdev sector (suc i) ds h in
    ground (arith, none_asked, rest, lost)
schedule-WaitsForLost jrdev sector i (d ∷ ds) (inr rests, h) =
    let (none_asked, rest) = schedule-WaitsForLost jrdev sector (suc i) ds h in
    ground (arith, none_asked, rest, rests)

-- What `handle_stripe` makes of such a stripe.
handled-WaitsForLost :
    (c : Conf) (id : ℕ)
    → let sh = c.stripes id in
      WaitsForLost c.jrdev 0 sh.devs
      → ((handle_stripe c id).1 ≡ [])
        × WaitsForLost c.jrdev 0
            (schedule c.jrdev sh.sector 0
              (modify_at sh.pd_idx mark_parity (map scan_dev sh.devs))).devs
unfolding handle_stripe
handled-WaitsForLost c id h =
    let sh = c.stripes id in
    schedule-WaitsForLost c.jrdev sh.sector 0 _
      (parity-WaitsForLost c.jrdev 0 sh.pd_idx _ (scan-WaitsForLost c.jrdev 0 sh.devs h))

module _ (c : Conf) (x id : ℕ) (v : Inv c) (few : FewDevices c) (first : 0 < occ x c.handle_list)
    (listed : 0 < occ id c.handle_list) (lost : WaitsForLost c.jrdev 0 (c.stripes id).devs) where
  -- After a round, the stripe's own or another's, the stripe still waits for a lost disk.
  after-WaitsForLost : WaitsForLost (after c x).jrdev 0 ((after c x).stripes id).devs
  after-WaitsForLost =
      subst (λ j. WaitsForLost j 0 ((after c x).stripes id).devs)
        (sym (after-jrdev c x v few first))
        (elim (Bool-cases (id == x)) [
          | inr ne ↦
              subst (λ t. WaitsForLost c.jrdev 0 t.devs)
                (sym (after-other c x v few first id (ground (arith, ne)))) lost
          | inl same ↦
              subst (λ (i : ℕ). WaitsForLost c.jrdev 0 ((after c i).stripes id).devs)
                ((==_iff id x).0 same)
                (subst (WaitsForLost c.jrdev 0) (sym (after-devs c id))
                  (handled-WaitsForLost c id lost).1)
        ])

  -- It is still on the list.
  after-listed : 0 < occ id (after c x).handle_list
  after-listed = elim (Bool-cases (id == x)) [
    | inl same ↦
        let e : x ≡ id = sym ((==_iff id x).0 same) in
        let none_asked : length (asked c x) ≡ 0 =
          ap (λ (i : ℕ). length (asked c i)) e
          ∙ ap length (asked_same c id ∙ (handled-WaitsForLost c id lost).0) in
        ground (
          arith,
          after-handle_list c x v few first,
          none_asked,
          same,
          occ-append id (remove x c.handle_list) (x ∷ []),
        )
    | inr ne ↦ ground (
      arith,
      after-handle_list c x v few first,
      ne,
      listed,
      occ-append id (remove x c.handle_list) (x ∷ []),
      occ-remove id x c.handle_list,
    )
  ]

-- From a well formed cache, whose stripes have fewer than 2^31 devices each, the run of the thread
-- never ends if a stripe of its list waits only for devices without a disk: no number of rounds empties
-- the list, whatever the other stripes ask.
pub jraid5d_spins :
    (fuel : ℕ) (c : Conf) (id : ℕ)
    → Inv c
    → FewDevices c
    → 0 < occ id c.handle_list
    → WaitsForLost c.jrdev 0 (c.stripes id).devs
    → (c' : Conf) × (jraid5d fuel c ≡ spinning c')
unfolding jraid5d
jraid5d_spins zero c id v few listed lost = (c, refl)
jraid5d_spins (suc fuel) c id v few listed lost = elim (List-cases c.handle_list) [
  | inl l ↦ absurd (omega (arith, listed, ap (occ id) l))
  | inr (x, rest, l) ↦
      let first : 0 < occ x c.handle_list = subst (λ z. 0 < occ x z) (sym l) (ground arith) in
      let (c', e) =
        jraid5d_spins fuel (after c x) id (after-Inv c x v few first)
          (after-FewDevices c x v few first) (after-listed c x id v few first listed lost)
          (after-WaitsForLost c x id v few first listed lost) in
      (c', run-cons fuel c (after c x) x rest (asked c x) l (round_eq c x v few first) ∙ e)
]
