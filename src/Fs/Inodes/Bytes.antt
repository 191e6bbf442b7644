-- ===== src/Fs/Inodes/Bytes.antt =====
-- The bytes of a `d_inode`, which fs_types.h packs: little-endian words one after the other. A time
-- stamp has 8 bytes, which are read as one number.
use potatoes.Prelude.{
  ℕ, zero, suc, ◌+◌, ◌*◌, ◌/◌, ◌%◌, ◌^◌, ◌<◌, ◌≡◌, refl, ap₂, List, [], ◌∷◌, ◌++◌, arith, length,
  take, drop,
}
use potatoes.Fs.Inodes.{DInode, num_direct_pointer}

-- sizeof (d_inode).
abbrev pub disk_inode_size : ℕ
disk_inode_size = 150

abbrev pub le_bytes : ℕ → ℕ → List ℕ
le_bytes zero v = []
le_bytes (suc n) v = (v % 256) ∷ le_bytes n (v / 256)

abbrev pub from_le : List ℕ → ℕ
from_le [] = 0
from_le (b ∷ bs) = b + 256 * from_le bs

abbrev pub words_bytes : List ℕ → List ℕ
words_bytes [] = []
words_bytes (w ∷ ws) = le_bytes 4 w ++ words_bytes ws

abbrev pub bytes_words : ℕ → List ℕ → List ℕ
bytes_words zero bs = []
bytes_words (suc n) bs = from_le (take 4 bs) ∷ bytes_words n (drop 4 bs)

abbrev pub drop_words : ℕ → List ℕ → List ℕ
drop_words zero bs = bs
drop_words (suc n) bs = drop_words n (drop 4 bs)

pub encode_dinode : DInode → List ℕ
encode_dinode d =
    le_bytes 2 d.mode
    ++ (le_bytes 4 d.size
        ++ (le_bytes 8 d.create_ts
            ++ (le_bytes 8 d.modify_ts
                ++ (words_bytes d.direct_pointer
                    ++ (le_bytes 4 d.single_indirect_pointer
                        ++ le_bytes 4 d.double_indirect_pointer)))))

-- With `n` direct pointers.
abbrev decode_with : ℕ → List ℕ → DInode
decode_with n bytes =
    let pointers = drop 22 bytes in
    let indirect = drop_words n pointers in
    record {
      mode = from_le (take 2 bytes);
      size = from_le (take 4 (drop 2 bytes));
      create_ts = from_le (take 8 (drop 6 bytes));
      modify_ts = from_le (take 8 (drop 14 bytes));
      direct_pointer = bytes_words n pointers;
      single_indirect_pointer = from_le (take 4 indirect);
      double_indirect_pointer = from_le (take 4 (drop 4 indirect));
    }

pub decode_dinode : List ℕ → DInode
decode_dinode = decode_with num_direct_pointer

-- 256 to the power of `n`.
abbrev pub capacity : ℕ → ℕ
capacity zero = 1
capacity (suc n) = 256 * capacity n

pub from_le-le_bytes : (n v : ℕ) → v < capacity n → from_le (le_bytes n v) ≡ v
from_le-le_bytes zero v h = omega arith
from_le-le_bytes (suc n) v h =
    let rest = from_le-le_bytes n (v / 256) (omega arith) in omega (arith, rest)

abbrev pub AllWords : List ℕ → Type 0
AllWords [] = Unit
AllWords (w ∷ ws) = (w < 2 ^ 32) × AllWords ws

bytes_words-words_bytes :
    (n : ℕ) (ws rest : List ℕ)
    → length ws ≡ n
    → AllWords ws
    → bytes_words n (words_bytes ws ++ rest) ≡ ws
bytes_words-words_bytes zero [] rest e a = refl
bytes_words-words_bytes (suc n) [] rest e a = absurd (omega arith)
bytes_words-words_bytes zero (w ∷ ws) rest e a = absurd (omega arith)
bytes_words-words_bytes (suc n) (w ∷ ws) rest e a =
    ap₂ ◌∷◌ (from_le-le_bytes 4 w a.0) (bytes_words-words_bytes n ws rest (omega arith) a.1)

drop_words-words_bytes :
    (n : ℕ) (ws rest : List ℕ) → length ws ≡ n → drop_words n (words_bytes ws ++ rest) ≡ rest
drop_words-words_bytes zero [] rest e = refl
drop_words-words_bytes (suc n) [] rest e = absurd (omega arith)
drop_words-words_bytes zero (w ∷ ws) rest e = absurd (omega arith)
drop_words-words_bytes (suc n) (w ∷ ws) rest e = drop_words-words_bytes n ws rest (omega arith)

length-words_bytes :
    (ws rest : List ℕ) → length (words_bytes ws ++ rest) ≡ length ws * 4 + length rest
length-words_bytes [] rest = omega arith
length-words_bytes (w ∷ ws) rest = let r = length-words_bytes ws rest in omega (arith, r)

-- Each field is within its width, and there are 30 direct pointers.
pub record IsDInode (d : DInode) : Type 0 where
  pub mode : d.mode < 2 ^ 16
  pub size : d.size < 2 ^ 32
  pub create_ts : d.create_ts < 2 ^ 64
  pub modify_ts : d.modify_ts < 2 ^ 64
  pub pointers : length d.direct_pointer ≡ num_direct_pointer
  pub words : AllWords d.direct_pointer
  pub single_indirect : d.single_indirect_pointer < 2 ^ 32
  pub double_indirect : d.double_indirect_pointer < 2 ^ 32

pub length-encode_dinode : {d : DInode} → IsDInode d → length (encode_dinode d) ≡ disk_inode_size
unfolding encode_dinode
length-encode_dinode {d} v =
    let r =
      length-words_bytes d.direct_pointer
        (le_bytes 4 d.single_indirect_pointer ++ le_bytes 4 d.double_indirect_pointer) in
    omega (arith, r, v.pointers)

decode_with-encode_dinode :
    (n : ℕ) {d : DInode}
    → length d.direct_pointer ≡ n
    → IsDInode d
    → decode_with n (encode_dinode d) ≡ d
unfolding encode_dinode
decode_with-encode_dinode n {d} e v =
    let rest = le_bytes 4 d.single_indirect_pointer ++ le_bytes 4 d.double_indirect_pointer in
    rw
      (
        drop_words-words_bytes n d.direct_pointer rest e,
        bytes_words-words_bytes n d.direct_pointer rest e v.words,
        from_le-le_bytes 2 d.mode v.mode,
        from_le-le_bytes 4 d.size v.size,
        from_le-le_bytes 8 d.create_ts v.create_ts,
        from_le-le_bytes 8 d.modify_ts v.modify_ts,
        from_le-le_bytes 4 d.single_indirect_pointer v.single_indirect,
        from_le-le_bytes 4 d.double_indirect_pointer v.double_indirect,
      )
      refl

-- A disk inode whose fields are within their widths is read back from its bytes.
pub decode_dinode-encode_dinode : {d : DInode} → IsDInode d → decode_dinode (encode_dinode d) ≡ d
unfolding decode_dinode
decode_dinode-encode_dinode v = decode_with-encode_dinode num_direct_pointer v.pointers v

pub length-decode_dinode :
    (bytes : List ℕ) → length (decode_dinode bytes).direct_pointer ≡ num_direct_pointer
unfolding decode_dinode
length-decode_dinode bytes = refl
