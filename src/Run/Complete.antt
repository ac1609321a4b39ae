-- ===== src/Run/Complete.antt =====
-- The stages of `do_jmd_run`, put together again.
use jraid.Common.{
  ℕ, ◌≡◌, ◌↔◌, inl, inr, Bool, true, false, ◌&&◌, not, none, some, ◌==◌, ◌>>=◌, leb, ltb, arith, ap,
  ◌∙◌, if◌then◌else◌, ==_iff,
}
use jraid.Errno.{einval}
use jraid.Superblock.{Superblock}
use jraid.Member.{Kernel, System, is_some}
use jraid.Start.{Started}
use jraid.Analyze.Checks.{and_true}
use jraid.Run.{
  Driver, level_to_pers, max_personality, accepts_chunk, finish_run, after_run, start_run,
  run_sized, run_checked, run_analyzed, do_jmd_run,
}
use jraid.Run.Outcome.{Ran, HasRun, described, do_jmd_run-outcome}

skip {ℓ} : {A : Type ℓ} (b : Bool) (x y : A) → b ≡ false → (if b then x else y) ≡ y
skip b x y h = ap (λ c. if c then x else y) h

level_to_pers-low : (level : ℕ) → leb max_personality (level_to_pers level) ≡ false
unfolding level_to_pers
level_to_pers-low level = ground arith

accepted_page : (k : Kernel) (c : ℕ) → accepts_chunk k c ≡ true → (c == 0) ≡ false
unfolding accepts_chunk
accepted_page k c h = let low = (and_true _ (not (ltb c 4096)) h).1 in ground (arith, low)

module _ (k : Kernel) (d d' : Driver) (sb : Superblock) (v : Ran k d sb d') where
  start_run-Ran : start_run k v.d1 (level_to_pers sb.level) v.run sb ≡ some (d', 0)
  unfolding start_run
  start_run-Ran =
      let pnum = level_to_pers sb.level in
      let next = λ (r : Started).
        (if r.result == 0
          then finish_run k (after_run v.d1 pnum r) r.sb
          else some (record (after_run v.d1 pnum r) { pers = none }, einval)) in
      ap (λ o. o >>= next) v.ran
      ∙ ap
          (λ (b : Bool).
            if b
            then finish_run k (after_run v.d1 pnum v.r) v.r.sb
            else some (record (after_run v.d1 pnum v.r) { pers = none }, einval))
          ((==_iff _ 0).1 v.ok)
      ∙ v.finished

  run_sized-Ran : run_sized k (described d sb) (level_to_pers sb.level) sb v.run ≡ some (d', 0)
  unfolding run_sized
  run_sized-Ran =
      ap
        (λ (t : Driver × ℕ).
          if t.1 == 0
          then start_run k t.0 (level_to_pers sb.level) v.run sb
          else some (t.0, einval))
        v.sized
      ∙ start_run-Ran

  run_analyzed-Ran : run_analyzed k d sb ≡ some (d', 0)
  unfolding run_analyzed run_checked
  run_analyzed-Ran =
      let pnum = level_to_pers sb.level in
      skip (not (accepts_chunk k sb.chunk_size)) _ _ (ap not v.chunk)
      ∙ skip (leb max_personality pnum) _ _ (level_to_pers-low sb.level)
      ∙ skip (not (pnum == 3) && not (pnum == 1) && sb.chunk_size == 0) _ _
          (ground (arith, accepted_page k sb.chunk_size v.chunk))
      ∙ ap (run_checked k (described d sb) pnum sb) v.registered
      ∙ run_sized-Ran

do_jmd_run-HasRun : (k : Kernel) (d d' : Driver) → HasRun k d d' → do_jmd_run k d ≡ some (d', 0)
unfolding do_jmd_run
do_jmd_run-HasRun k d d' v =
    let next = λ (t : System × Bool).
      (let d1 = record d { system = t.0; jmd_size = 0 } in
        if t.1 then some (d1, einval) else t.0.array.sb >>= λ sb. run_analyzed k d1 sb) in
    skip (d.system.array.nb_dev == 0) _ _ (ground (arith, v.members))
    ∙ skip (is_some d.pers) _ _ (ap is_some v.idle)
    ∙ ap (λ o. o >>= next) v.analyzed
    ∙ ap (λ o. o >>= λ sb. run_analyzed k (record d { system = v.s; jmd_size = 0 }) sb) v.own
    ∙ run_analyzed-Ran k (record d { system = v.s; jmd_size = 0 }) d' v.sb v.rest

-- `do_jmd_run` succeeds exactly if each of its stages does.
pub do_jmd_run_iff : (k : Kernel) (d d' : Driver) → (do_jmd_run k d ≡ some (d', 0)) ↔ HasRun k d d'
do_jmd_run_iff k d d' = (
  λ h. elim (do_jmd_run-outcome k d d' 0 h) [
    | inl (_, v) ↦ v
    | inr (inl (wrong, _, _)) ↦ absurd (omega (arith, wrong))
    | inr (inr (wrong, _)) ↦ absurd (omega (arith, wrong))
  ],
  do_jmd_run-HasRun k d d',
)
