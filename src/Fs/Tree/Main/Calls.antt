-- ===== src/Fs/Tree/Main/Calls.antt =====
-- The calls of fs_main.c that hand their arguments on.
use potatoes.Prelude.{ℕ, ◌≡◌, refl, ap, ◌>>=◌, Bool, some, List}
use potatoes.Prelude.Int.{ℤ}
use potatoes.Fs.Tree.{System}
use potatoes.Fs.Tree.Open.{PathMemory, fs_open, fs_close}
use potatoes.Fs.Tree.Main.{status, do_open, do_close}

pub do_open-fs_open :
    (fuel : ℕ) (s : System) (path : List ℕ) (memory : PathMemory)
    → do_open fuel s path memory ≡ fs_open fuel s path memory
unfolding do_open
do_open-fs_open fuel s path memory = refl

pub do_close-fs_close :
    (s s' : System) (fd : ℤ) (closed : Bool)
    → fs_close s fd ≡ some (s', closed)
    → do_close s fd ≡ some (s', status closed)
unfolding do_close
do_close-fs_close s s' fd closed e = ap (λ r. r >>= (λ (s1, c). some (s1, status c))) e
