-- ===== src/Fs/Blocks/Tests.antt =====
-- An inode in block 40 of an empty disk of 64 blocks: its first two direct pointers are set.
use potatoes.Prelude.{ℕ, refl, true, [], arith}
use potatoes.Fs.Bmap.{Bmap}
use potatoes.Fs.Bmap.Tests.{empty, empty-IsBmap, free_40}
use potatoes.Fs.Inodes.Disk.Tests.{inode, inode-IsDInode}
use potatoes.Fs.Blocks.{Blocks, get_data_block}
use potatoes.Fs.Blocks.Direct.{Found, Enlarged, pointed, get_data_block-Grown}

abbrev pub blocks : Blocks
blocks = record { bm = empty; addr_cache = []; d_inode_cache = [] }

abbrev six : ℕ
six = 6

get_data_block-Grown_example :
    (r : ℕ) × (bm' : Bmap) × Enlarged empty 40 r bm'
    × Found
        (record blocks { bm = bm' })
        (get_data_block blocks inode 1024 true)
        (pointed inode 2 r)
        r
get_data_block-Grown_example =
    get_data_block-Grown blocks inode 1024 (omega arith) 0 refl empty-IsBmap.device (omega arith)
      inode-IsDInode 40 refl (omega arith) empty-IsBmap (omega arith) (omega arith) free_40
