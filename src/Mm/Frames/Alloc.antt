-- ===== src/Mm/Frames/Alloc.antt =====
-- `alloc_frame` and `free_frame`.
use potatoes.Prelude.{
  ℕ, ◌-◌, ◌*◌, ◌/◌, ◌%◌, ◌^◌, ◌≤◌, ◌<◌, ◌≡◌, ◌≢◌, refl, sym, ap, ◌∙◌, Bool, true, some, ◌==◌,
  if◌then◌else◌, arith, inl, inr, eq→==, ne→==,
}
use mathlib.Core.Path.{subst}
use potatoes.Mm.Frames.{
  Frames, Page, Outcome, done, panic, first_free_frame, alloc_frame, free_frame,
}
use potatoes.Mm.Frames.Used.{used, IsBitmap, Changed, set_frame-Changed, clear_frame-Changed}
use potatoes.Mm.Frames.First.{AllUsed, FirstFree, first_free_frame-FirstFree}

-- What `alloc_frame` has done with a page that had no frame.
abbrev pub Given : Frames → Page → Bool → Bool → Outcome → Type 0
Given fs page kernel writeable panic = AllUsed fs.words 0 (fs.nframes / 32 * 32)
Given fs page kernel writeable (done page' fs') =
    (page'.frame < fs.nframes / 32 * 32)
    × (used fs page'.frame ≡ 0)
    × AllUsed fs.words 0 page'.frame
    × Changed fs page'.frame 1 fs'
    × (page'.present ≡ 1)
    × (page'.rw_bit ≡ (if writeable then 1 else 0))
    × (page'.user ≡ (if kernel then 0 else 1))

-- On a bitmap of at most 2 ^ 20 frames `alloc_frame` does not fault on a page without a frame. It
-- gives the page the least free frame of the whole words, marks that frame as used and no other,
-- and sets the page's flags as asked; it panics only where all these frames are used.
pub alloc_frame-Given :
    {fs : Frames} (page : Page) (kernel writeable : Bool)
    → IsBitmap fs
    → fs.nframes ≤ 2 ^ 20
    → page.frame ≡ 0
    → (o : Outcome) × (alloc_frame fs page kernel writeable ≡ some o)
      × Given fs page kernel writeable o
unfolding alloc_frame
alloc_frame-Given {fs} page kernel writeable m small e =
    let (r, ran, found) = first_free_frame-FirstFree m (omega arith) in given r ran found
  where
    no_frame : (page.frame == 0) ≡ true
    no_frame = eq→== page.frame 0 e

    given :
        (r : ℕ)
        → first_free_frame fs ≡ some r
        → FirstFree fs.words 0 (fs.nframes / 32 * 32) r
        → (o : Outcome) × (alloc_frame fs page kernel writeable ≡ some o)
          × Given fs page kernel writeable o
    given r ran (inr (last, all)) = (panic, rw (no_frame, ran, eq→== r (2 ^ 32 - 1) last) refl, all)
    given r ran (inl (p, q, z, before)) =
        let number : r * 0x1000 % 2 ^ 32 / 0x1000 ≡ r = omega arith in
        let (fs', marked, change) =
          set_frame-Changed m (r * 0x1000 % 2 ^ 32) (omega (arith, number, m.enough)) in
        let bits : r % 2 ^ 20 ≡ r = omega arith in
        (
          done
              (record page {
                present = 1;
                rw_bit = if writeable then 1 else 0;
                user = if kernel then 0 else 1;
                frame = r % 2 ^ 20;
              })
              fs',
          rw (no_frame, ran, ne→== r (2 ^ 32 - 1) (omega arith), marked) refl,
          (
            omega arith,
            ap (used fs) bits ∙ z,
            subst (AllUsed fs.words 0) (sym bits) before,
            subst (λ t. Changed fs t 1 fs') (number ∙ sym bits) change,
            refl,
            refl,
            refl,
          ),
        )

-- `free_frame` hands the number of the page's frame to `clear_frame` as if it were an address: for a
-- page with frame `n` it takes the frame from the page, clears the bit of frame `n / 4096`, and
-- leaves that of `n` itself as it was, so that a frame once given out stays used.
pub free_frame_lem :
    {fs : Frames} (page : Page)
    → IsBitmap fs
    → page.frame ≢ 0
    → page.frame < fs.nframes / 32 * 32
    → (fs' : Frames) × (free_frame fs page ≡ some (record page { frame = 0 }, fs'))
      × Changed fs (page.frame / 0x1000) 0 fs'
      × (used fs' page.frame ≡ used fs page.frame)
unfolding free_frame
free_frame_lem {fs} page m some_frame inside =
    let (fs', cleared, change) = clear_frame-Changed m page.frame (omega (arith, m.enough)) in
    (
      fs',
      rw (ne→== page.frame 0 some_frame, cleared) refl,
      change,
      ground (arith, change.bits page.frame),
    )
