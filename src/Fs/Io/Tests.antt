-- ===== src/Fs/Io/Tests.antt =====
-- Reads and writes of the first two blocks of an inode on an empty disk of 64 blocks.
use potatoes.Prelude.{
  ℕ, zero, suc, List, [], ◌∷◌, ◌≡◌, ◌≤◌, ◌<◌, ◌-◌, ◌^◌, inl, refl, true, ◌++◌, some, arith, take,
  drop, replicate,
}
use potatoes.Fs.Bmap.Tests.{empty, empty-IsBmap}
use potatoes.Fs.Inodes.Disk.Tests.{inode, inode-IsDInode}
use potatoes.Fs.Blocks.{Blocks}
use potatoes.Fs.Blocks.Tests.{blocks}
use potatoes.Fs.Io.{fs_read, fs_write}
use potatoes.Fs.Io.Whole.{OnDisk, Mapped, file_bytes, fs_read-file_bytes}
use potatoes.Fs.Io.Spread.{Apart, Writes, fs_write-file_bytes, fs_read-fs_write_over_edges}
use potatoes.Fs.Io.Write.{written_inode}
use potatoes.Fs.Io.Stored.{StoredAt, fs_write-StoredAt}

abbrev target : List ℕ
target = replicate 6 9

fs_write-StoredAt_example :
    (s' : Blocks) × (fs_write 1 blocks inode (1 ∷ 2 ∷ 3 ∷ []) 3 4 true 77
      ≡ some (s', written_inode inode 3 4 77, 3))
    × StoredAt blocks inode 5 (1 ∷ 2 ∷ 3 ∷ []) 3 4 s' (written_inode inode 3 4 77)
fs_write-StoredAt_example =
    fs_write-StoredAt 0 blocks (1 ∷ 2 ∷ 3 ∷ []) inode 3 4 5 true 77 (omega arith) (omega arith)
      (omega arith) (omega arith) (omega arith) refl (omega arith) (omega arith) (omega arith)
      (omega arith) empty-IsBmap.device (omega arith) inode-IsDInode (omega arith)

abbrev sectors : ℕ → List ℕ
sectors = empty.dev.sector

blocks-OnDisk : OnDisk inode sectors 64 blocks
blocks-OnDisk = record { device = empty-IsBmap.device; same_size = refl; sectors = λ j away. refl }

inode-Mapped : Mapped inode 64 515
inode-Mapped zero h = (refl, omega arith, omega arith, omega arith)
inode-Mapped (suc zero) h = (refl, omega arith, omega arith, omega arith)
inode-Mapped (suc (suc k)) h = absurd (omega arith)

fs_read-file_bytes_example :
    (s' : Blocks) × (fs_read 6 blocks target inode 5 510 true
      ≡ some (s', inode, file_bytes sectors inode.direct_pointer 510 5 ++ drop 5 target, 5))
    × OnDisk inode sectors 64 s'
fs_read-file_bytes_example =
    fs_read-file_bytes inode sectors 64 515 true inode-IsDInode (omega arith) (omega arith) 6 blocks
      target 5 510 (omega arith) blocks-OnDisk inode-Mapped refl (omega arith) (omega arith)
      (omega arith)

inode_inside : 40 ≤ 64
inode_inside = omega arith

disk_small : 64 < 2 ^ 32 - 1
disk_small = omega arith

in_time : 77 < 2 ^ 64
in_time = omega arith

direct : 515 ≤ 15360
direct = omega arith

inode-Apart : Apart inode 515
inode-Apart zero zero h l ne = absurd (ne refl)
inode-Apart zero (suc zero) h l ne = omega arith
inode-Apart (suc zero) zero h l ne = omega arith
inode-Apart (suc zero) (suc zero) h l ne = absurd (ne refl)
inode-Apart zero (suc (suc k)) h l ne = absurd (omega arith)
inode-Apart (suc zero) (suc (suc k)) h l ne = absurd (omega arith)
inode-Apart (suc (suc j)) k h l ne = absurd (omega arith)

fs_write-file_bytes_example :
    Writes inode 64 515 true 77 inode-IsDInode inode_inside disk_small in_time inode-Mapped
      inode-Apart direct blocks
      (fs_write 6 blocks inode target 5 510 true 77)
      target
      5
      510
fs_write-file_bytes_example =
    fs_write-file_bytes inode 64 515 true 77 inode-IsDInode inode_inside disk_small in_time
      inode-Mapped inode-Apart direct 6 blocks target 5 510 (omega arith) (omega arith)
      empty-IsBmap.device refl refl (inl refl) (omega arith)

fs_read-fs_write_over_edges_example :
    (s' s'' : Blocks) × (fs_write 6 blocks inode target 5 510 true 77
      ≡ some (s', written_inode inode 5 510 77, 5))
    × (fs_read 6 s' (replicate 8 3) (written_inode inode 5 510 77) 5 510 true
        ≡ some (s'', written_inode inode 5 510 77, take 5 target ++ drop 5 (replicate 8 3), 5))
fs_read-fs_write_over_edges_example =
    fs_read-fs_write_over_edges inode 64 515 true 77 inode-IsDInode inode_inside disk_small in_time
      inode-Mapped inode-Apart direct 6 blocks target (replicate 8 3) 5 510 (omega arith)
      (omega arith) empty-IsBmap.device refl refl (inl refl) (omega arith) (omega arith)
