-- ===== src/Cache/Build.antt =====
-- `__init_stripe` on the devices of an idle stripe.
use jraid.Common.{
  ℕ, ◌+◌, ◌-◌, ◌≡◌, ◌&&◌, false, ◌==◌, if◌then◌else◌, length, arith, [], ◌∷◌, List, some, ap, refl,
  suc, wrap32, add64, mul64, ◌/◌, ◌%◌,
}
use jraid.Geometry.{Layout, Mapping, compute_blocknr, sectors_per_chunk, data_index, sign_extend}
use jraid.Geometry.Bounds.{IsGood, mapping, compute_sector_exact}
use jraid.Stripe.{Dev}
use jraid.Cache.{build_block, build_blocks, is_busy, no_flags}

-- On a good layout the way back never divides by zero.
compute_blocknr-some :
    (l : Layout) (sector pd i : ℕ) → IsGood l → (r : ℕ) × (compute_blocknr l sector pd i ≡ some r)
unfolding compute_blocknr
compute_blocknr-some l sector pd i g =
    let spc : ℕ = sectors_per_chunk l in
    let d : ℕ = l.raid_disks - 1 in
    let chunk : ℕ = wrap32 (add64 (mul64 (sector / spc) d) (data_index l pd i)) in
    let r : ℕ = add64 (mul64 (sign_extend chunk) spc) (sector % spc) in
    let check : Mapping = mapping l r in
    (
      if check.new_sector == sector && check.dd_idx == i && check.pd_idx == pd then r else 0,
      ground (arith, compute_sector_exact l r pd g (omega arith)),
    )

-- No device of the list has work left.
abbrev pub AllIdle : List Dev → Type 0
AllIdle [] = Unit {0}
AllIdle (d ∷ ds) = (is_busy d ≡ false) × AllIdle ds

-- The devices are as before but for their flags, which are clear, and their sectors.
abbrev pub AllReset : List Dev → List Dev → Type 0
AllReset [] [] = Unit {0}
AllReset [] (d' ∷ ds') = ⊥
AllReset (d ∷ ds) [] = ⊥
AllReset (d ∷ ds) (d' ∷ ds') =
    (d'.flags ≡ no_flags)
    × (d'.toread ≡ d.toread)
    × (d'.towrite ≡ d.towrite)
    × (d'.page ≡ d.page)
    × AllReset ds ds'

pub length-AllReset : (ds ds' : List Dev) → AllReset ds ds' → length ds' ≡ length ds
length-AllReset [] [] h = refl
length-AllReset [] (d' ∷ ds') h = absurd h
length-AllReset (d ∷ ds) [] h = absurd h
length-AllReset (d ∷ ds) (d' ∷ ds') h = ap suc (length-AllReset ds ds' h.4)

build_block-some :
    (l : Layout) (sector pd i : ℕ) (d : Dev)
    → IsGood l
    → is_busy d ≡ false
    → (d' : Dev) × (build_block l sector pd i d ≡ some d')
      × (d'.flags ≡ no_flags)
      × (d'.toread ≡ d.toread)
      × (d'.towrite ≡ d.towrite)
      × (d'.page ≡ d.page)
unfolding build_block
build_block-some l sector pd i d g h =
    let (r, e) = compute_blocknr-some l sector pd i g in
    (
      if i == pd then record d { flags = no_flags } else record d { flags = no_flags; sector = r },
      ground (arith, h, e),
      ground arith,
      ground arith,
      ground arith,
      ground arith,
    )

-- On a good layout, the devices of a stripe without waiting bios and locks can be set up: there is no
-- BUG() and no fault, and the flags of each device are clear while its queues and its page stay.
pub build_blocks-some :
    (l : Layout) (sector pd i : ℕ) (ds : List Dev)
    → IsGood l
    → AllIdle ds
    → (ds' : List Dev) × (build_blocks l sector pd i ds ≡ some ds') × AllReset ds ds'
unfolding build_blocks
build_blocks-some l sector pd i [] g h = ([], refl, tt)
build_blocks-some l sector pd i (d ∷ ds) g h =
    let (d', e, f, r, w, p) = build_block-some l sector pd i d g h.0 in
    let (ds', e', rest) = build_blocks-some l sector pd (i + 1) ds g h.1 in
    (d' ∷ ds', rw (e, e'), (f, r, w, p, rest))
