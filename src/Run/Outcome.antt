-- ===== src/Run/Outcome.antt =====
-- What `do_jmd_run` comes to: each stage that it passed, or what it refused.
use jraid.Common.{
  ℕ, ◌≡◌, ◌≢◌, ◌⊎◌, inl, inr, Bool, true, false, ◌&&◌, not, Option, none, some, ◌==◌, ◌>>=◌, leb,
  refl, sym, ap, ◌∙◌, Bool-cases, Option-cases, ==_iff, if◌then◌else◌, some_inj, none≢some,
  true≢false, >>=-eq-some, if-true, if_both, ◌||◌, if-false,
}
use jraid.Errno.{einval, ebusy}
use jraid.Superblock.{Superblock, without_bit, md_sb_clean}
use jraid.Array.{with_sb}
use jraid.Member.{Kernel, System, is_some}
use jraid.Start.{Started}
use jraid.Update.{jmd_update_sb}
use jraid.Analyze.{analyze_sbs}
use jraid.Run.{
  Personality, Driver, level_to_pers, max_personality, size_members, size_array, zoned_jraid_size,
  device_size_calculation, accepts_chunk, finish_run, after_run, start_run, run_sized, run_checked,
  run_analyzed, do_jmd_run, below_zero, data_disks,
}

-- The array with the parameters that its superblock gives.
abbrev pub described : Driver → Superblock → Driver
described d sb = record d {
  param_chunk_size = sb.chunk_size;
  param_personality = level_to_pers sb.level;
}

-- A run that succeeded, from the analysed superblock on, by what each stage handed to the next.
pub record Ran (k : Kernel) (d : Driver) (sb : Superblock) (d' : Driver) : Type 0 where
  pub chunk : accepts_chunk k sb.chunk_size ≡ true
  pub run : Personality
  pub registered : d.table (level_to_pers sb.level) ≡ some run
  pub d1 : Driver
  pub sized : device_size_calculation k (described d sb) sb ≡ (d1, 0)
  pub r : Started
  pub ran :
      run k.allocates d1.system.calls d1.system.rdevs d1.system.array.disks d1.system.array.nb_dev
        sb
      ≡ some r
  pub ok : r.result ≡ 0
  pub finished : finish_run k (after_run d1 (level_to_pers sb.level) r) r.sb ≡ some (d', 0)
  pub runs : d'.pers ≡ some (level_to_pers sb.level)
  pub started : d'.started ≡ some r

-- The same, from the start.
pub record HasRun (k : Kernel) (d d' : Driver) : Type 0 where
  pub members : d.system.array.nb_dev ≢ 0
  pub idle : d.pers ≡ none
  pub s : System
  pub analyzed : analyze_sbs k d.system ≡ some (s, false)
  pub sb : Superblock
  pub own : s.array.sb ≡ some sb
  pub rest : Ran k (record d { system = s; jmd_size = 0 }) sb d'

-- A run that was refused: an array that is running is left as it is; else none runs.
abbrev pub IsRefused : Driver → Driver → ℕ → Type 0
IsRefused d d' e = ((e ≡ ebusy) × (d.pers ≢ none) × (d' ≡ d)) ⊎ ((e ≡ einval) × (d'.pers ≡ d.pers))

finish_run-zero :
    (k : Kernel) (d d' : Driver) (sb : Superblock) (e : ℕ)
    → finish_run k d sb ≡ some (d', e)
    → e ≡ 0
unfolding finish_run
finish_run-zero k d d' sb e h =
    let (t, _, h1) =
      >>=-eq-some
        (jmd_update_sb k
          (with_sb d.system (record sb { state = without_bit sb.state md_sb_clean })))
        _ h in
    sym (ap (λ t. t.1) (some_inj h1))

finish_run-kept :
    (k : Kernel) (d d' : Driver) (sb : Superblock) (e : ℕ)
    → finish_run k d sb ≡ some (d', e)
    → (d'.pers ≡ d.pers) × (d'.started ≡ d.started)
unfolding finish_run
finish_run-kept k d d' sb e h =
    let (t, _, h1) =
      >>=-eq-some
        (jmd_update_sb k
          (with_sb d.system (record sb { state = without_bit sb.state md_sb_clean })))
        _ h in
    (sym (ap (λ t. t.0.pers) (some_inj h1)), sym (ap (λ t. t.0.started) (some_inj h1)))

size_array-pers :
    (d : Driver) (sb : Superblock) (o : Option ℕ) → (size_array d sb o).0.pers ≡ d.pers
unfolding size_array
size_array-pers d sb none = refl
size_array-pers d sb (some n) = refl

sized-pers :
    (k : Kernel) (d : Driver) (sb : Superblock) → (device_size_calculation k d sb).0.pers ≡ d.pers
unfolding device_size_calculation zoned_jraid_size
sized-pers k d sb =
    let (s, short) = size_members k sb d.system d.system.array.disks in
    let zoned = sb.level == below_zero 1 || sb.level == 0 in
    if_both (λ (t : Driver × ℕ). t.0.pers ≡ d.pers) short _ _ refl
      (size_array-pers _ sb (data_disks sb)
        ∙ if_both (λ (t : Driver). t.pers ≡ d.pers) zoned _ _ refl refl)

-- A stage of the run: refused, with no personality, or passed.
abbrev Ends {ℓ} : Type ℓ → Driver → ℕ → Type ℓ
Ends P d' e = ((e ≡ einval) × (d'.pers ≡ none)) ⊎ ((e ≡ 0) × P)

refused :
    {P : Type 0} (d d' : Driver) (e : ℕ)
    → d.pers ≡ none
    → ◌≡◌ {A = Driver × ℕ} (d, einval) (d', e)
    → Ends P d' e
refused d d' e idle h = inl (sym (ap (λ t. t.1) h), sym (ap (λ t. t.0.pers) h) ∙ idle)

start_run-ends :
    (k : Kernel) (d d' : Driver) (pnum : ℕ) (run : Personality) (sb : Superblock) (e : ℕ)
    → start_run k d pnum run sb ≡ some (d', e)
    → Ends
        ((r : Started) × (run k.allocates d.system.calls d.system.rdevs d.system.array.disks
              d.system.array.nb_dev sb
            ≡ some r)
          × (r.result ≡ 0)
          × (finish_run k (after_run d pnum r) r.sb ≡ some (d', 0)))
        d'
        e
unfolding start_run
start_run-ends k d d' pnum run sb e h =
    let (r, ran, h1) =
      >>=-eq-some
        (run k.allocates d.system.calls d.system.rdevs d.system.array.disks d.system.array.nb_dev
          sb)
        _ h in
    elim (Bool-cases (r.result == 0)) [
      | inl ok ↦
          let last = if-true _ _ ok h1 in
          let zero = finish_run-zero k (after_run d pnum r) d' r.sb e last in
          inr (zero, (r, ran, (==_iff _ _).0 ok, last ∙ ap (λ t. some (d', t)) zero))
      | inr bad ↦
          refused (record (after_run d pnum r) { pers = none }) d' e refl
            (some_inj (if-false _ _ bad h1))
    ]

run_sized-ends :
    (k : Kernel) (d d' : Driver) (sb : Superblock) (run : Personality) (e : ℕ)
    → d.pers ≡ none
    → accepts_chunk k sb.chunk_size ≡ true
    → d.table (level_to_pers sb.level) ≡ some run
    → run_sized k (described d sb) (level_to_pers sb.level) sb run ≡ some (d', e)
    → Ends (Ran k d sb d') d' e
unfolding run_sized
run_sized-ends k d d' sb run e idle chunk registered h =
    let sized = device_size_calculation k (described d sb) sb in
    elim (Bool-cases (sized.1 == 0)) [
      | inr bad ↦
          refused sized.0 d' e (sized-pers k (described d sb) sb ∙ idle)
            (some_inj (if-false _ _ bad h))
      | inl ok ↦
          elim (start_run-ends k sized.0 d' (level_to_pers sb.level) run sb e (if-true _ _ ok h)) [
            | inl end ↦ inl end
            | inr (zero, (r, ran, good, last)) ↦ inr (
              zero,
              record {
                chunk = chunk;
                run = run;
                registered = registered;
                d1 = sized.0;
                sized = ap (λ (t : ℕ). (sized.0, t)) ((==_iff _ _).0 ok);
                r = r;
                ran = ran;
                ok = good;
                finished = last;
                runs = (finish_run-kept k _ d' r.sb 0 last).0;
                started = (finish_run-kept k _ d' r.sb 0 last).1;
              },
            )
          ]
    ]

run_checked-ends :
    (k : Kernel) (d d' : Driver) (sb : Superblock) (o : Option Personality) (e : ℕ)
    → d.pers ≡ none
    → accepts_chunk k sb.chunk_size ≡ true
    → d.table (level_to_pers sb.level) ≡ o
    → run_checked k (described d sb) (level_to_pers sb.level) sb o ≡ some (d', e)
    → Ends (Ran k d sb d') d' e
unfolding run_checked
run_checked-ends k d d' sb none e idle chunk registered h =
    refused (described d sb) d' e idle (some_inj h)
run_checked-ends k d d' sb (some run) e idle chunk registered h =
    run_sized-ends k d d' sb run e idle chunk registered h

run_analyzed-ends :
    (k : Kernel) (d d' : Driver) (sb : Superblock) (e : ℕ)
    → d.pers ≡ none
    → run_analyzed k d sb ≡ some (d', e)
    → Ends (Ran k d sb d') d' e
unfolding run_analyzed
run_analyzed-ends k d d' sb e idle h =
    let pnum = level_to_pers sb.level in
    let stop = λ (p : ◌≡◌ {A = Driver × ℕ} (described d sb, einval) (d', e)).
      refused {P = Ran k d sb d'} (described d sb) d' e idle p in
    elim (Bool-cases (accepts_chunk k sb.chunk_size)) [
      | inr bad ↦ stop (some_inj (if-true _ _ (ap not bad) h))
      | inl chunk ↦
          let h1 = if-false _ _ (ap not chunk) h in
          elim (Bool-cases (leb max_personality pnum)) [
            | inl bad ↦ stop (some_inj (if-true _ _ bad h1))
            | inr low ↦
                let h2 = if-false _ _ low h1 in
                elim (Bool-cases (not (pnum == 3) && not (pnum == 1) && sb.chunk_size == 0)) [
                  | inl bad ↦ stop (some_inj (if-true _ _ bad h2))
                  | inr good ↦
                      run_checked-ends k d d' sb (d.table pnum) e idle chunk refl
                        (if-false _ _ good h2)
                ]
          ]
    ]

same-IsRefused :
    (d d' : Driver) (e : ℕ) → ◌≡◌ {A = Driver × ℕ} (d, einval) (d', e) → IsRefused d d' e
same-IsRefused d d' e h = inr (sym (ap (λ t. t.1) h), sym (ap (λ t. t.0.pers) h))

analyzed-outcome :
    (k : Kernel) (d d' : Driver) (e : ℕ) (s : System) (stopped : Bool)
    → (d.system.array.nb_dev == 0) ≡ false
    → d.pers ≡ none
    → analyze_sbs k d.system ≡ some (s, stopped)
    → (if stopped
        then some (record d { system = s; jmd_size = 0 }, einval)
        else s.array.sb >>= λ sb. run_analyzed k (record d { system = s; jmd_size = 0 }) sb)
      ≡ some (d', e)
    → ((e ≡ 0) × HasRun k d d') ⊎ IsRefused d d' e
analyzed-outcome k d d' e s true members idle analyzed h =
    let last = some_inj h in inr (inr (sym (ap (λ t. t.1) last), sym (ap (λ t. t.0.pers) last)))
analyzed-outcome k d d' e s false members idle analyzed h =
    let (sb, own, h1) = >>=-eq-some s.array.sb _ h in
    elim (run_analyzed-ends k (record d { system = s; jmd_size = 0 }) d' sb e idle h1) [
      | inl (bad, none_runs) ↦ inr (inr (bad, none_runs ∙ sym idle))
      | inr (ok, rest) ↦ inl (
        ok,
        record {
          members = λ z. true≢false ((==_iff _ 0).1 z) members;
          idle = idle;
          s = s;
          analyzed = analyzed;
          sb = sb;
          own = own;
          rest = rest;
        },
      )
    ]

-- `do_jmd_run` ends with 0 after it passed each of its stages, and the personality of the level runs
-- then; or with -EBUSY, on an array that runs, which stays as it was; or with -EINVAL, and what ran
-- before, if anything, is what runs after.
pub do_jmd_run-outcome :
    (k : Kernel) (d d' : Driver) (e : ℕ)
    → do_jmd_run k d ≡ some (d', e)
    → ((e ≡ 0) × HasRun k d d') ⊎ IsRefused d d' e
unfolding do_jmd_run
do_jmd_run-outcome k d d' e h = elim (Bool-cases (d.system.array.nb_dev == 0)) [
  | inl empty ↦ inr (same-IsRefused d d' e (some_inj (if-true _ _ empty h)))
  | inr members ↦
      let h1 = if-false _ _ members h in
      elim (Option-cases d.pers) [
        | inr (pnum, runs) ↦
            let last = some_inj (if-true _ _ (ap is_some runs) h1) in
            inr (
              inl (
                sym (ap (λ t. t.1) last),
                λ idle. none≢some (sym idle ∙ runs),
                sym (ap (λ t. t.0) last),
              ))
        | inl idle ↦
            let ((s, stopped), analyzed, h2) =
              >>=-eq-some (analyze_sbs k d.system) _ (if-false _ _ (ap is_some idle) h1) in
            analyzed-outcome k d d' e s stopped members idle analyzed h2
      ]
]
