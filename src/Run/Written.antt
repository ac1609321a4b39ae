-- ===== src/Run/Written.antt =====
-- The superblock of the array after a run that succeeded.
use Prim.Native.Nat.{min}
use jraid.Common.{
  ℕ, suc, ◌+◌, ◌-◌, ◌*◌, ◌^◌, ◌<◌, ◌≤◌, ◌≡◌, inl, inr, Bool, false, ◌||◌, not, some, ◌==◌, arith,
  refl, sym, ap, ◌∙◌, subst, some_inj, >>=-eq-some, if-true, if-false, if_both, Bool-cases, zero,
  wrap32, List, occ,
}
use jraid.Geometry.{sign_extend}
use jraid.Superblock.{Superblock, jmd_event, has_bit, without_bit, md_sb_clean}
use jraid.Superblock.Events.{IsWords}
use jraid.Member.{Kernel, Rdev, System, tick}
use jraid.Array.{with_sb, sync_sbs}
use jraid.Array.Sync.{sync_sbs-InSync}
use jraid.Start.{Started, jraid5_run}
use jraid.Start.Outcome.{jraid5_run-outcome}
use jraid.Update.{next_event, update_round, update_rounds, jmd_update_sb}
use jraid.Update.Events.{HasEvents, write_sbs-Kept, update_rounds-HasEvents}
use jraid.Analyze.{analyze_sbs}
use jraid.Analyze.Members.{analyze_sbs-Alike}
use jraid.Run.{
  Personality, Driver, level_to_pers, after_run, finish_run, do_jmd_run, device_size_calculation,
}
use jraid.Run.Members.{device_size_calculation-Alike}
use jraid.Run.Outcome.{Ran, described, do_jmd_run-outcome}
use jraid.Run.Ready.{OnlyRaid5}

-- The array has a superblock with this state.
HasState : ℕ → System → Type 0
HasState state s = (sb : Superblock) × (s.array.sb ≡ some sb) × (sb.state ≡ state)

next_event-state : (now : ℕ) (sb : Superblock) → (next_event now sb).state ≡ sb.state
unfolding next_event
next_event-state now sb = ground arith

-- A round of an update does not touch the state.
update_round-state :
    (k : Kernel) (s : System) (state : ℕ) (t : System × ℕ)
    → HasState state s
    → update_round k s ≡ some t
    → HasState state t.0
unfolding update_round HasState
update_round-state k s state t (sb, a, e) h =
    let (sb0, f, h1) = >>=-eq-some s.array.sb _ h in
    let sb1 : Superblock = next_event (k.get_seconds s.calls) sb0 in
    let (s1, g, h2) = >>=-eq-some (sync_sbs k (with_sb (tick s) sb1)) _ h1 in
    let (_, _, array, _, _) = sync_sbs-InSync k (with_sb (tick s) sb1) s1 sb1 refl g in
    let same : sb1.state ≡ state =
      next_event-state (k.get_seconds s.calls) sb0 ∙ ap (λ b. b.state) (some_inj (sym f ∙ a)) ∙ e in
    let here : s1.array.sb ≡ some sb1 = ap (λ b. b.sb) array in
    subst (λ (u : System × ℕ). HasState state u.0) (some_inj h2)
      (if_both (λ (u : System × ℕ). HasState state u.0) (not (sb1.not_persistent == 0)) (s1, 0) _
        (sb1, here, same) (sb1, ap (λ b. b.sb) (write_sbs-Kept k s1 s1.array.disks).1 ∙ here, same))

update_rounds-state :
    (k : Kernel) (count : ℕ) (s : System) (state : ℕ) (t : System × ℕ)
    → HasState state s
    → update_rounds k count s ≡ some t
    → HasState state t.0
unfolding update_rounds
update_rounds-state k zero s state t a h =
    subst (λ (u : System × ℕ). HasState state u.0) (some_inj h) a
update_rounds-state k (suc count) s state t a h =
    let ((s1, err), e, h1) = >>=-eq-some (update_round k s) _ h in
    let one = update_round-state k s state (s1, err) a e in
    elim (Bool-cases (err == 0 || count == 0)) [
      | inl stop ↦
          subst (λ (u : System × ℕ). HasState state u.0) (some_inj (if-true _ _ stop h1)) one
      | inr more ↦ update_rounds-state k count s1 state t one (if-false _ _ more h1)
    ]

clean_gone : (state : ℕ) → has_bit (without_bit state md_sb_clean) md_sb_clean ≡ false
clean_gone state = ground arith

-- The array after the end of a run, from a superblock with so many events: these went up, the
-- superblock is not clean, and the members have copies.
record IsWritten (k : Kernel) (d : Driver) (sb : Superblock) (d' : Driver) : Type 0 where
  rounds : ℕ
  low : 1 ≤ rounds
  high : rounds ≤ 100
  has : HasEvents k d.system.array.disks (min (jmd_event sb + rounds) (2 ^ 64 - 1)) d'.system
  dirty : has_bit has.sb.state md_sb_clean ≡ false
  size : d'.jmd_size ≡ d.jmd_size
  sectors : d'.nr_sects ≡ sign_extend (wrap32 (d.jmd_size * 2))

finish_run-IsWritten :
    (k : Kernel) (d d' : Driver) (sb : Superblock) (e : ℕ)
    → IsWords sb
    → finish_run k d sb ≡ some (d', e)
    → IsWritten k d sb d'
unfolding finish_run jmd_update_sb HasState
finish_run-IsWritten k d d' sb e words h =
    let sb1 : Superblock = record sb { state = without_bit sb.state md_sb_clean } in
    let s1 : System = with_sb d.system sb1 in
    let ((s2, err), f, h1) = >>=-eq-some (update_rounds k 100 s1) _ h in
    let (rounds, low, high, _, has) = update_rounds-HasEvents k 99 s1 sb1 (s2, err) refl words f in
    let (sb2, own, state) = update_rounds-state k 100 s1 sb1.state (s2, err) (sb1, refl, refl) f in
    subst (λ (t : Driver × ℕ). IsWritten k d sb t.0) (some_inj h1)
      (record {
        rounds = rounds;
        low = low;
        high = high;
        has = has;
        dirty =
            ap (λ b. has_bit b.state md_sb_clean) (some_inj (sym has.here ∙ own))
            ∙ ap (λ (n : ℕ). has_bit n md_sb_clean) state
            ∙ clean_gone sb.state;
        size = refl;
        sectors = refl;
      })

-- The members after `device_size_calculation` are those that it found.
sized_disks :
    (k : Kernel) (d d1 : Driver) (sb : Superblock)
    → device_size_calculation k (described d sb) sb ≡ (d1, 0)
    → d1.system.array.disks ≡ d.system.array.disks
sized_disks k d d1 sb h =
    ap (λ (t : Driver × ℕ). t.0.system.array.disks) (sym h)
    ∙ (device_size_calculation-Alike k (described d sb) sb).disks

-- The events of the superblock stay through `jraid5_run`.
jraid5_run-events :
    (ok : ℕ → Bool) (n : ℕ) (rdevs : ℕ → Rdev) (ids : List ℕ) (nb_dev : ℕ) (sb : Superblock)
    (r : Started)
    → jraid5_run ok n rdevs ids nb_dev sb ≡ some r
    → r.result ≡ 0
    → (r.sb.events_lo ≡ sb.events_lo) × (r.sb.events_hi ≡ sb.events_hi)
jraid5_run-events ok n rdevs ids nb_dev sb r h good =
    elim (jraid5_run-outcome ok n rdevs ids nb_dev sb r h) [
      | inl a ↦ absurd (omega (arith, a.failed, good))
      | inr v ↦ (v.run.events_lo, v.run.events_hi)
    ]

-- The array, with these members, has a superblock with 1 to 100 events more than `sb`, of which they
-- have copies, and which is not clean, and the sectors of its `jmd_size`.
abbrev pub Updated : Kernel → List ℕ → Superblock → Driver → Type 0
Updated k disks sb d =
    (rounds : ℕ) × (1 ≤ rounds)
    × (rounds ≤ 100)
    × (has : HasEvents k disks (min (jmd_event sb + rounds) (2 ^ 64 - 1)) d.system) × (has_bit
          has.sb.state md_sb_clean
        ≡ false)
    × (d.nr_sects ≡ sign_extend (wrap32 (d.jmd_size * 2)))

-- The end of a run that went through its stages.
Ran-IsWritten :
    (k : Kernel) (d d' : Driver) (sb : Superblock)
    → OnlyRaid5 d
    → IsWords sb
    → Ran k d sb d'
    → Updated k d.system.array.disks sb d'
Ran-IsWritten k d d' sb only words w =
    let (_, jraid5) = only (level_to_pers sb.level) w.run w.registered in
    let (lo, hi) =
      jraid5_run-events k.allocates w.d1.system.calls w.d1.system.rdevs w.d1.system.array.disks
        w.d1.system.array.nb_dev sb w.r
        (ap
            (λ (run : Personality).
              run k.allocates w.d1.system.calls w.d1.system.rdevs w.d1.system.array.disks
                w.d1.system.array.nb_dev sb)
            (sym jraid5)
          ∙ w.ran)
        w.ok in
    let v =
      finish_run-IsWritten k (after_run w.d1 (level_to_pers sb.level) w.r) d' w.r.sb 0
        (omega (arith, words, lo, hi)) w.finished in
    let events : jmd_event w.r.sb ≡ jmd_event sb = omega (arith, lo, hi) in
    let place = sized_disks k d w.d1 sb w.sized in
    let has : HasEvents k d.system.array.disks (min (jmd_event sb + v.rounds) (2 ^ 64 - 1))
        d'.system =
      record {
        sb = v.has.sb;
        here = v.has.here;
        words = v.has.words;
        events_are = v.has.events_are ∙ ap (λ (n : ℕ). min (n + v.rounds) (2 ^ 64 - 1)) events;
        same = v.has.same ∙ place;
        synced = λ id m. v.has.synced id (subst (λ ids. 0 < occ id ids) (sym place) m);
      } in
    (
      v.rounds,
      v.low,
      v.high,
      has,
      v.dirty,
      v.sectors ∙ ap (λ (n : ℕ). sign_extend (wrap32 (n * 2))) (sym v.size),
    )

-- When `do_jmd_run` succeeds, with the personality of src/jraid5.c alone in the table, on an array
-- whose superblock, as `analyze_sbs` leaves it, has event counters of a word each, then the array has
-- the members that it had, the events of its superblock went up by 1 to 100, but to 2^64 - 1 at most,
-- and it is not clean; each member is faulty or has a copy of it with these events, its descriptors
-- and a right checksum; and the array has two sectors for each unit of `jmd_size`, as an `int`.
pub do_jmd_run-HasEvents :
    (k : Kernel) (d d' : Driver) (s : System) (sb : Superblock)
    → OnlyRaid5 d
    → analyze_sbs k d.system ≡ some (s, false)
    → s.array.sb ≡ some sb
    → IsWords sb
    → do_jmd_run k d ≡ some (d', 0)
    → Updated k d.system.array.disks sb d'
do_jmd_run-HasEvents k d d' s sb only analyzed own words h = elim (do_jmd_run-outcome k d d' 0 h) [
  | inr (inl (wrong, _, _)) ↦ absurd (omega (arith, wrong))
  | inr (inr (wrong, _)) ↦ absurd (omega (arith, wrong))
  | inl (_, v) ↦
      let same_s : v.s ≡ s = ap (λ t. t.0) (some_inj (sym v.analyzed ∙ analyzed)) in
      let same : v.sb ≡ sb = some_inj (sym v.own ∙ ap (λ t. t.array.sb) same_s ∙ own) in
      let disks : v.s.array.disks ≡ d.system.array.disks =
        (analyze_sbs-Alike k d.system v.s false v.analyzed).disks in
      subst (λ ids. Updated k ids sb d') disks
        (Ran-IsWritten k (record d { system = v.s; jmd_size = 0 }) d' sb only words
          (subst (λ t. Ran k (record d { system = v.s; jmd_size = 0 }) t d') same v.rest))
]
