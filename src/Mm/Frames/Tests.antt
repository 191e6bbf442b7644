-- ===== src/Mm/Frames/Tests.antt =====
-- Runs of the frame bitmap, and its theorems at a bitmap of 64 frames.
use potatoes.Prelude.{zero, suc, ◌≡◌, refl, [], ◌∷◌, some, true, false, arith}
use potatoes.Mm.Frames.{Frames, Page, Outcome, first_free_frame, alloc_frame, free_frame}
use potatoes.Mm.Frames.Used.{used, AllWords, IsBitmap, Changed}
use potatoes.Mm.Frames.Alloc.{Given, alloc_frame-Given, free_frame_lem}

-- Frames 0 to 32, 33 and 35 are used.
abbrev two_words : Frames
two_words = record { words = 0xffff_ffff ∷ 11 ∷ []; nframes = 64 }

abbrev no_page : Page
no_page = record { present = 0; rw_bit = 0; user = 0; frame = 0 }

abbrev page_33 : Page
page_33 = record { present = 1; rw_bit = 1; user = 0; frame = 33 }

two_words-IsBitmap : IsBitmap two_words
two_words-IsBitmap = record { enough = omega arith; word_range = range }
  where
    range : AllWords (0xffff_ffff ∷ 11 ∷ [])
    range zero = omega arith
    range (suc zero) = omega arith
    range (suc (suc i)) = omega arith

first_is_34 : first_free_frame two_words ≡ some 34
unfolding first_free_frame
first_is_34 = refl

none_is_free :
    first_free_frame (record { words = 0xffff_ffff ∷ []; nframes = 32 }) ≡ some 0xffff_ffff
unfolding first_free_frame
none_is_free = refl

alloc_frame-Given_example :
    (o : Outcome) × (alloc_frame two_words no_page true false ≡ some o)
    × Given two_words no_page true false o
alloc_frame-Given_example =
    alloc_frame-Given no_page true false two_words-IsBitmap (omega arith) refl

free_frame_lem_example :
    (fs : Frames) × (free_frame two_words page_33 ≡ some (record page_33 { frame = 0 }, fs))
    × Changed two_words 0 0 fs
    × (used fs 33 ≡ used two_words 33)
free_frame_lem_example = free_frame_lem page_33 two_words-IsBitmap (omega arith) (omega arith)
