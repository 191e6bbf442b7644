-- ===== src/Klib/Strings/Find.antt =====
-- `strsep`.
use potatoes.Prelude.{
  ℕ, suc, ◌≡◌, ◌≢◌, refl, sym, ap, ◌∙◌, List, [], ◌∷◌, ◌++◌, append_assoc, some, none, length,
  ne→==, eq→==, drop, take,
}
use potatoes.Klib.Strings.{strchr, strsep}
use potatoes.Klib.Strings.Text.{IsText, cstr}
use potatoes.Klib.Strings.Length.{Absent}

strchr-at :
    (a b : List ℕ) (ch : ℕ)
    → IsText a
    → Absent a ch
    → strchr (a ++ (ch ∷ b)) ch ≡ some (some (length a))
unfolding strchr
strchr-at [] b ch t h = rw (eq→== ch ch refl) refl
strchr-at (c ∷ a) b ch t h = rw (ne→== c ch h.0, ne→== c 0 t.0, strchr-at a b ch t.2 h.1)

strchr-Absent :
    (a b : List ℕ) (ch : ℕ) → IsText a → Absent a ch → ch ≢ 0 → strchr (cstr a b) ch ≡ some none
unfolding strchr
strchr-Absent [] b ch t h ne = rw (ne→== 0 ch (λ e. ne (sym e))) refl
strchr-Absent (c ∷ a) b ch t h ne =
    rw (ne→== c ch h.0, ne→== c 0 t.0, strchr-Absent a b ch t.2 h.1 ne)

take-before : (a r : List ℕ) → take (length a) (a ++ r) ≡ a
take-before [] r = refl
take-before (c ∷ a) r = ap (λ t. c ∷ t) (take-before a r)

drop-behind : (a r : List ℕ) (x : ℕ) → drop (suc (length a)) (a ++ (x ∷ r)) ≡ r
drop-behind [] r x = refl
drop-behind (c ∷ a) r x = drop-behind a r x

-- `strsep` cuts a text at the first delimiter: the token is what stands before it, with a terminator
-- in the delimiter's place, and the rest begins behind it. Where the delimiter does not occur, the
-- token is the whole text and the rest is NULL; from NULL the token is NULL.
pub strsep-cut :
    (a b rest : List ℕ) (delim : ℕ)
    → IsText a
    → Absent a delim
    → delim ≢ 0
    → (strsep (some (cstr (a ++ (delim ∷ b)) rest)) delim
        ≡ some (some (cstr a []), some (cstr b rest)))
      × (strsep (some (cstr a rest)) delim ≡ some (some (cstr a rest), none))
      × (strsep none delim ≡ some (none, none))
unfolding strsep
strsep-cut a b rest delim t h ne = (
  ap (λ m. strsep (some m) delim) (append_assoc a (delim ∷ b) (0 ∷ rest))
      ∙ rw
          (
            strchr-at a (b ++ (0 ∷ rest)) delim t h,
            take-before a (delim ∷ (b ++ (0 ∷ rest))),
            drop-behind a (b ++ (0 ∷ rest)) delim,
          )
          refl,
  rw (strchr-Absent a rest delim t h ne) refl,
  refl,
)
