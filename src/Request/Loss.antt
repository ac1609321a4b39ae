-- ===== src/Request/Loss.antt =====
-- A bio after `__add_stripe_bio`, refused or queued.
use mathlib.Core.Option
use jraid.Common.{
  ℕ, zero, suc, ◌+◌, ◌≡◌, Bool, true, false, none, some, List, [], ◌∷◌, map, if◌then◌else◌, arith,
  refl, ap, ◌∙◌, sym, get_elem?, ==_refl, not, ◌||◌, some_inj, subst, Option-cases, inl, inr,
}
use jraid.Geometry.{Layout}
use jraid.Stripe.{Bio, Dev, Conf}
use jraid.Cache.{build_block, build_blocks, init_stripe, is_null, remove_hash, release_stripe}
use jraid.Cache.Release.{devs-release_stripe}
use jraid.Bios.{add_bio, insert_bio, mark_overwrite}
use jraid.Handle.{Request, handle_stripe, modify_at}
use jraid.Handle.Plan.{bios, bios-handle_stripe, requests-same}
use jraid.Bios.Order.{IsChain, IsSound, AnyOverlaps, Inserted, insert_bio-Inserted}
use jraid.Request.{served, end_request, serve}
use jraid.Request.Lifecycle.{complete, offered, serve_eq}

-- The bios that wait for the direction of a new one.
abbrev pub waiting : Bool → Dev → List Bio
waiting forwrite d = if forwrite then d.towrite else d.toread

devs-complete :
    (n : ℕ) (c : Conf) (id : ℕ) → ((complete n c id).stripes id).devs ≡ (c.stripes id).devs
unfolding complete end_request
devs-complete zero c id = refl
devs-complete (suc n) c id = devs-complete n (release_stripe c id) id ∙ devs-release_stripe c id id

get_elem?-modify_at :
    (i : ℕ) (d d' : Dev) (ds : List Dev)
    → get_elem? ds i ≡ some d
    → get_elem? (modify_at i (λ _. d') ds) i ≡ some d'
get_elem?-modify_at i d d' [] h = cc
get_elem?-modify_at zero d d' (x ∷ ds) h = refl
get_elem?-modify_at (suc i) d d' (x ∷ ds) h = get_elem?-modify_at i d d' ds h

bios-modify_at :
    (i : ℕ) (d d' : Dev) (ds : List Dev)
    → get_elem? ds i ≡ some d
    → bios d' ≡ bios d
    → map bios (modify_at i (λ _. d') ds) ≡ map bios ds
bios-modify_at i d d' [] h e = refl
bios-modify_at zero d d' (x ∷ ds) h e = ap (λ t. t ∷ map bios ds) (e ∙ ap bios (sym (some_inj h)))
bios-modify_at (suc i) d d' (x ∷ ds) h e = ap (λ t. bios x ∷ t) (bios-modify_at i d d' ds h e)

-- The device after it refused the bio, and after it queued it.
add_bio-refused :
    (d : Dev) (bi : Bio) (forwrite : Bool)
    → insert_bio bi (waiting forwrite d) ≡ none
    → let (queued, d') = add_bio d bi forwrite in
      (queued ≡ false)
      × (bios d' ≡ bios d)
      × (d'.flags.wantread ≡ d.flags.wantread)
      × (d'.flags.wantwrite ≡ d.flags.wantwrite)
unfolding add_bio
add_bio-refused d bi true e = rw e (refl, refl, refl, refl)
add_bio-refused d bi false e = rw e (refl, refl, refl, refl)

-- A bio that shares a sector with one of a chain is not inserted.
overlap-refused :
    (bi : Bio) (bs : List Bio)
    → IsChain 0 bs
    → IsSound bi
    → AnyOverlaps bi bs
    → insert_bio bi bs ≡ none
overlap-refused bi bs chain sound shared = elim (Option-cases (insert_bio bi bs)) [
  | inl e ↦ e
  | inr (bs', e) ↦
      let (_, _, apart) =
        subst (Inserted 0 bi bs) e (insert_bio-Inserted 0 bi bs chain (omega arith) sound) in
      absurd (apart shared)
]

-- A device with these bios has one that waits or is written.
abbrev pending : List Bio × List Bio × List Bio → Bool
pending (r, w, f) = not (is_null r) || not (is_null w) || not (is_null f)

insert_bio-busy : (bi : Bio) (bs bs' : List Bio) → insert_bio bi bs ≡ some bs' → is_null bs' ≡ false
unfolding insert_bio
insert_bio-busy bi [] bs' e = rw (sym (some_inj e)) refl
insert_bio-busy bi (b ∷ bs) bs' e = ground (arith, insert_bio-busy bi bs)

add_bio-queued :
    (d : Dev) (bi : Bio) (forwrite : Bool) (bs : List Bio)
    → insert_bio bi (waiting forwrite d) ≡ some bs
    → ((add_bio d bi forwrite).0 ≡ true) × (pending (bios (add_bio d bi forwrite).1) ≡ true)
unfolding add_bio mark_overwrite
add_bio-queued d bi true bs e = ground (arith, insert_bio-busy bi d.towrite bs e)
add_bio-queued d bi false bs e = ground (arith, insert_bio-busy bi d.toread bs e)

build_blocks-pending :
    (l : Layout) (sector pd j i : ℕ) (ds : List Dev) (t : List Bio × List Bio × List Bio)
    → get_elem? (map bios ds) i ≡ some t
    → pending t ≡ true
    → build_blocks l sector pd j ds ≡ none
unfolding build_blocks build_block
build_blocks-pending l sector pd j i [] t h b = cc
build_blocks-pending l sector pd j zero (x ∷ ds) t h b =
    let busy : pending (bios x) ≡ true = subst (λ z. pending z ≡ true) (sym (some_inj h)) b in
    ground (arith, busy)
build_blocks-pending l sector pd j (suc i) (x ∷ ds) t h b =
    ground (arith, build_blocks-pending l sector pd (j + 1) i ds t h b)

get_elem?-map :
    (i : ℕ) (d : Dev) (ds : List Dev)
    → get_elem? ds i ≡ some d
    → get_elem? (map bios ds) i ≡ some (bios d)
get_elem?-map i d [] h = cc
get_elem?-map zero d (x ∷ ds) h = ap (λ o. Option.map bios o) h
get_elem?-map (suc i) d (x ∷ ds) h = get_elem?-map i d ds h

devs-remove_hash : (c : Conf) (id : ℕ) → ((remove_hash c id).stripes id).devs ≡ (c.stripes id).devs
unfolding remove_hash
devs-remove_hash c id = ground arith

init_stripe-pending :
    (c : Conf) (id sector pd i : ℕ) (t : List Bio × List Bio × List Bio)
    → get_elem? (map bios (c.stripes id).devs) i ≡ some t
    → pending t ≡ true
    → init_stripe c id sector pd ≡ none
unfolding init_stripe
init_stripe-pending c id sector pd i t h b =
    ground (arith, build_blocks-pending c.layout sector pd 0 i (c.stripes id).devs t h b)

module _ (c : Conf) (id dd : ℕ) (bi : Bio) (forwrite : Bool) (d : Dev)
    (dev : get_elem? (c.stripes id).devs dd ≡ some d) where
  -- The devices after the bio was offered have the bios that they have at the end of the call.
  bios-served :
      map bios
        ((release_stripe (handle_stripe (offered c id bi dd forwrite d) id).0 id).stripes id).devs
      ≡ map bios (modify_at dd (λ _. (add_bio d bi forwrite).1) (c.stripes id).devs)
  unfolding offered
  bios-served =
      ap (map bios) (devs-release_stripe _ id id)
      ∙ bios-handle_stripe (offered c id bi dd forwrite d) id
      ∙ rw (==_refl id) refl

  serve_result :
      (q : Bool)
      → (add_bio d bi forwrite).0 ≡ q
      → let (c', requests) = handle_stripe (offered c id bi dd forwrite d) id in
        serve c id bi dd forwrite ≡ served (release_stripe c' id) requests q true
  serve_result q e =
      let (c', requests) = handle_stripe (offered c id bi dd forwrite d) id in
      serve_eq c id dd bi forwrite d dev ∙ ap (λ z. served (release_stripe c' id) requests z true) e

  -- A bio that has a sector, ends below 2^64 and shares a sector with one that waits in its
  -- direction, on a sorted chain without overlaps, is queued nowhere: the devices have the bios that
  -- they had, and the disks are asked for what `handle_stripe` asks without it. The request is ended
  -- with success all the same.
  pub serve-refused :
      IsChain 0 (waiting forwrite d)
      → IsSound bi
      → AnyOverlaps bi (waiting forwrite d)
      → (c' : Conf) × (serve c id bi dd forwrite ≡ served c' (handle_stripe c id).1 false true)
        × (map bios (c'.stripes id).devs ≡ map bios (c.stripes id).devs)
  unfolding offered
  serve-refused chain sound shared =
      let e = overlap-refused bi (waiting forwrite d) chain sound shared in
      let (q, same, reads, writes) = add_bio-refused d bi forwrite e in
      let d' : Dev = (add_bio d bi forwrite).1 in
      let o : Conf = offered c id bi dd forwrite d in
      let c' : Conf = release_stripe (handle_stripe o id).0 id in
      (
        c',
        serve_result false q
            ∙ ap (λ r. served c' r false true)
                (requests-same d d' (ap (λ t. t.0) same, ap (λ t. t.1) same) (reads, writes) c o id
                  dd dev refl (rw (==_refl id) refl)),
        bios-served ∙ bios-modify_at dd d d' (c.stripes id).devs dev same,
      )

  -- A bio that was queued stays on its stripe, whatever completes afterwards: once the stripe is
  -- taken for another sector, `__init_stripe` finds the bio and stops at BUG().
  pub serve-stuck :
      (bs : List Bio) (n sector pd : ℕ)
      → insert_bio bi (waiting forwrite d) ≡ some bs
      → (c' : Conf) × (requests : List Request) × (serve c id bi dd forwrite
          ≡ served c' requests true true)
        × (init_stripe (complete n c' id) id sector pd ≡ none)
  serve-stuck bs n sector pd e =
      let (q, busy) = add_bio-queued d bi forwrite bs e in
      let d' : Dev = (add_bio d bi forwrite).1 in
      let c' : Conf = release_stripe (handle_stripe (offered c id bi dd forwrite d) id).0 id in
      let there : get_elem? (map bios ((complete n c' id).stripes id).devs) dd ≡ some (bios d') =
        ap (λ z. get_elem? z dd) (ap (map bios) (devs-complete n c' id) ∙ bios-served)
        ∙ get_elem?-map dd d' _ (get_elem?-modify_at dd d d' (c.stripes id).devs dev) in
      (
        c',
        _,
        serve_result true q,
        init_stripe-pending (complete n c' id) id sector pd dd (bios d') there busy,
      )
