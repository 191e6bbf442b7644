-- ===== src/Mm/Frames.antt =====
-- The bitmap of physical frames, src/kernel/mm/mm_bitmap.c, with `page_t`, `frames` and `nframes` of
-- mm_paging.h. A word of `frames` is 32 bits wide; an access outside the array is a fault, `none`.
pub mod Used
pub mod First
pub mod Alloc
mod Tests
use potatoes.Prelude.{
  ℕ, zero, suc, ◌+◌, ◌-◌, ◌*◌, ◌/◌, ◌%◌, ◌^◌, Bool, not, Option, none, some, List, ◌==◌,
  if◌then◌else◌, ◌>>=◌, get_elem?, store, bit_and, bit_or,
}

pub record Frames : Type 0 where
  pub words : List ℕ
  pub nframes : ℕ

-- The fields of `page_t` that the code of this file reads or writes; `frame` has 20 bits.
pub record Page : Type 0 where
  pub present : ℕ
  pub rw_bit : ℕ
  pub user : ℕ
  pub frame : ℕ

pub set_frame : Frames → ℕ → Option Frames
set_frame fs frame_addr =
    let frame = frame_addr / 0x1000 in
    get_elem? fs.words (frame / 32) >>= (λ w.
      store fs.words (frame / 32) (bit_or w (2 ^ (frame % 32)))
      >>= (λ ws. some (record fs { words = ws })))

pub clear_frame : Frames → ℕ → Option Frames
clear_frame fs frame_addr =
    let frame = frame_addr / 0x1000 in
    get_elem? fs.words (frame / 32) >>= (λ w.
      store fs.words (frame / 32) (bit_and w (2 ^ 32 - 1 - 2 ^ (frame % 32)))
      >>= (λ ws. some (record fs { words = ws })))

pub test_frame : Frames → ℕ → Option Bool
test_frame fs frame_addr =
    let frame = frame_addr / 0x1000 in
    get_elem? fs.words (frame / 32) >>= (λ w. some (not (bit_and w (2 ^ (frame % 32)) == 0)))

-- The inner loop of `first_free_frame`, with the rounds left and `j`.
pub free_bit : ℕ → ℕ → ℕ → Option ℕ
free_bit w zero j = none
free_bit w (suc n) j =
    let rest = free_bit w n (j + 1) in if bit_and w (2 ^ j) == 0 then some j else rest

-- `return i*32+j` out of the inner loop, else on with the outer one.
pub in_word : ℕ → Option ℕ → Option ℕ → Option ℕ
in_word i (some j) rest = some ((i * 32 + j) % 2 ^ 32)
in_word i none rest = rest

-- The outer loop, with the rounds left and `i`.
pub free_from : List ℕ → ℕ → ℕ → Option ℕ
free_from words zero i = some (2 ^ 32 - 1)
free_from words (suc n) i =
    let rest = free_from words n (i + 1) in
    get_elem? words i >>= (λ w. if w == 0xffff_ffff then rest else in_word i (free_bit w 32 0) rest)

-- The first free frame, or `(uint32) -1`.
pub first_free_frame : Frames → Option ℕ
unfolding free_from free_bit in_word
first_free_frame fs = free_from fs.words (fs.nframes / 32) 0

-- `panic` does not return.
pub data Outcome : Type 0 where
  done : Page → Frames → Outcome
  panic : Outcome

pub alloc_frame : Frames → Page → Bool → Bool → Option Outcome
alloc_frame fs page kernel writeable =
    if not (page.frame == 0)
    then some (done page fs)
    else (first_free_frame fs >>= (λ first.
        if first == 2 ^ 32 - 1
        then some panic
        else (set_frame fs (first * 0x1000 % 2 ^ 32) >>= (λ fs'. some (
            done
              (record page {
                present = 1;
                rw_bit = if writeable then 1 else 0;
                user = if kernel then 0 else 1;
                frame = first % 2 ^ 20;
              })
              fs')))))

pub free_frame : Frames → Page → Option (Page × Frames)
free_frame fs page =
    if page.frame == 0
    then some (page, fs)
    else (clear_frame fs page.frame >>= (λ fs'. some (record page { frame = 0 }, fs')))
