-- ===== src/Run/Keeping.antt =====
-- The members of the array in `do_jmd_run`.
use jraid.Common.{
  ℕ, ◌≡◌, Option, ◌>>=◌, ◌&&◌, not, none, some, ◌==◌, inl, inr, refl, subst, if◌then◌else◌,
  Bool-cases, some_inj, >>=-eq-some, if-true, if-false, if_both, leb,
}
use jraid.Errno.{einval, ebusy}
use jraid.Superblock.{Superblock, without_bit, md_sb_clean}
use jraid.Member.{Kernel, System, is_some}
use jraid.Array.{with_sb}
use jraid.Joining.Alike.{Alike}
use jraid.Update.{jmd_update_sb}
use jraid.Analyze.{analyze_sbs}
use jraid.Analyze.Members.{Alike-refl, Alike-trans, unchanged, analyze_sbs-Alike}
use jraid.Run.Members.{update_rounds-Alike, device_size_calculation-Alike}
use jraid.Run.{
  Personality, Driver, level_to_pers, max_personality, device_size_calculation, accepts_chunk,
  finish_run, after_run, start_run, run_sized, run_checked, run_analyzed, do_jmd_run,
}

with_sb-Alike : (s : System) (sb : Superblock) → Alike s (with_sb s sb)
with_sb-Alike s sb = unchanged s (with_sb s sb) refl refl refl refl refl

finish_run-Alike :
    (k : Kernel) (d d' : Driver) (sb : Superblock) (e : ℕ)
    → finish_run k d sb ≡ some (d', e)
    → Alike d.system d'.system
unfolding finish_run jmd_update_sb
finish_run-Alike k d d' sb e h =
    let sb1 : Superblock = record sb { state = without_bit sb.state md_sb_clean } in
    let ((s, err), f, h1) = >>=-eq-some (jmd_update_sb k (with_sb d.system sb1)) _ h in
    subst (λ (t : Driver × ℕ). Alike d.system t.0.system) (some_inj h1)
      (Alike-trans d.system (with_sb d.system sb1) s (with_sb-Alike d.system sb1)
        (update_rounds-Alike k 100 (with_sb d.system sb1) s err f))

start_run-Alike :
    (k : Kernel) (d d' : Driver) (pnum : ℕ) (run : Personality) (sb : Superblock) (e : ℕ)
    → start_run k d pnum run sb ≡ some (d', e)
    → Alike d.system d'.system
unfolding start_run
start_run-Alike k d d' pnum run sb e h =
    let (r, _, h1) =
      >>=-eq-some
        (run k.allocates d.system.calls d.system.rdevs d.system.array.disks d.system.array.nb_dev
          sb)
        _ h in
    let ran : Alike d.system ((after_run d pnum r).system) =
      unchanged d.system ((after_run d pnum r).system) refl refl refl refl refl in
    elim (Bool-cases (r.result == 0)) [
      | inl ok ↦
          Alike-trans d.system _ d'.system ran
            (finish_run-Alike k (after_run d pnum r) d' r.sb e (if-true _ _ ok h1))
      | inr bad ↦
          subst (λ (t : Driver × ℕ). Alike d.system t.0.system) (some_inj (if-false _ _ bad h1)) ran
    ]

run_sized-Alike :
    (k : Kernel) (d d' : Driver) (pnum : ℕ) (sb : Superblock) (run : Personality) (e : ℕ)
    → run_sized k d pnum sb run ≡ some (d', e)
    → Alike d.system d'.system
unfolding run_sized
run_sized-Alike k d d' pnum sb run e h =
    let sized = device_size_calculation k d sb in
    let same = device_size_calculation-Alike k d sb in
    elim (Bool-cases (sized.1 == 0)) [
      | inl ok ↦
          Alike-trans d.system sized.0.system d'.system same
            (start_run-Alike k sized.0 d' pnum run sb e (if-true _ _ ok h))
      | inr bad ↦
          subst (λ (t : Driver × ℕ). Alike d.system t.0.system) (some_inj (if-false _ _ bad h)) same
    ]

-- A stage of the run keeps the members of `s`.
abbrev pub Keeps : System → Option (Driver × ℕ) → Type 0
Keeps s m = (d' : Driver) (e : ℕ) → m ≡ some (d', e) → Alike s d'.system

stop-Keeps : (d : Driver) (e : ℕ) → Keeps d.system (some (d, e))
stop-Keeps d e d' f h =
    subst (λ (t : Driver × ℕ). Alike d.system t.0.system) (some_inj h) (Alike-refl d.system)

run_checked-Keeps :
    (k : Kernel) (d : Driver) (pnum : ℕ) (sb : Superblock) (o : Option Personality)
    → Keeps d.system (run_checked k d pnum sb o)
unfolding run_checked
run_checked-Keeps k d pnum sb none = stop-Keeps d einval
run_checked-Keeps k d pnum sb (some run) = λ d' e h. run_sized-Alike k d d' pnum sb run e h

run_analyzed-Keeps :
    (k : Kernel) (d : Driver) (sb : Superblock) → Keeps d.system (run_analyzed k d sb)
unfolding run_analyzed
run_analyzed-Keeps k d sb =
    let pnum = level_to_pers sb.level in
    let d1 : Driver = record d { param_chunk_size = sb.chunk_size; param_personality = pnum } in
    let stop = stop-Keeps d1 einval in
    if_both (Keeps d.system) (not (accepts_chunk k sb.chunk_size)) _ _ stop (
      if_both (Keeps d.system) (leb max_personality pnum) _ _ stop (
        if_both (Keeps d.system) (not (pnum == 3) && not (pnum == 1) && sb.chunk_size == 0) _ _ stop
          (run_checked-Keeps k d1 pnum sb (d.table pnum))))

pub do_jmd_run-Keeps : (k : Kernel) (d : Driver) → Keeps d.system (do_jmd_run k d)
unfolding do_jmd_run
do_jmd_run-Keeps k d =
    if_both (Keeps d.system) (d.system.array.nb_dev == 0) _ _ (stop-Keeps d einval)
      (if_both (Keeps d.system) (is_some d.pers) _ _ (stop-Keeps d ebusy) analyzed)
  where
    analyzed : Keeps d.system (
        analyze_sbs k d.system >>= λ (s, refused).
        (let d1 = record d { system = s; jmd_size = 0 } in
          if refused then some (d1, einval) else s.array.sb >>= λ sb. run_analyzed k d1 sb))
    analyzed d' e h =
        let ((s, refused), f, h1) = >>=-eq-some (analyze_sbs k d.system) _ h in
        let d1 : Driver = record d { system = s; jmd_size = 0 } in
        Alike-trans d.system s d'.system (analyze_sbs-Alike k d.system s refused f)
          (elim (Bool-cases refused) [
            | inl bad ↦ stop-Keeps d1 einval d' e (if-true _ _ bad h1)
            | inr good ↦
                let (sb, _, h2) = >>=-eq-some s.array.sb _ (if-false _ _ good h1) in
                run_analyzed-Keeps k d1 sb d' e h2
          ])
