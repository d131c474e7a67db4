-- ===== src/Xv6/Inode/Tests.antt =====
-- lab3/xv6-public/fs.c: a write over the end of the first block of a file, and reads.
use cs.Prelude.{
  ℕ, ◌+◌, ◌/◌, ◌≡◌, ◌⊎◌, refl, arith, Bool, true, false, if◌then◌else◌, ltb, ◌==◌, Option, none,
  some, List, [], ◌∷◌, length,
}
use cs.Prelude.Search.{search_from}
use cs.Xv6.Pipe.{Writing, wrote, write_failed, read_bytes}
use cs.Xv6.File.Io.{OpenFile, fd_inode, filewrite, write_chunks, fileread}
use cs.Xv6.File.Back.{fileread-filewrite}
use cs.Xv6.File.Write.{Progress, filewrite_lem}
use cs.Xv6.Inode.{Inode, Device, bmap, bmap_addr, bmap_entry, balloc, iupdate}
use cs.Xv6.Inode.Bytes.{bytes_at, fill, byte_of, with_byte}
use cs.Xv6.Inode.Data.{readi, writei, read_loop, write_loop, cut}
use cs.Xv6.Inode.Content.{IsFile, content}
use cs.Xv6.Inode.Read.{slice}
use cs.Xv6.Inode.Names.{dirsiz, names_from, names_from_path}
use cs.Xv6.Inode.Dir.{dir_scan, add_entry, free_scan, padded, namecmp}
use cs.Xv6.Inode.Lookup.{IsDirectory}
use cs.Xv6.Inode.Link.{dir_scan-add_entry}
use cs.Xv6.Inode.File.{can_read, can_write, IsKept, IsWritten, readi_lem, writei_lem}

-- Block 0 of the file is block 5 of the device.
abbrev file : Inode
file = record {
  dev = 1;
  inum = 2;
  ref = 1;
  valid = true;
  copy = record {
    type = 2;
    major = 0;
    minor = 0;
    nlink = 1;
    size = 512;
    addrs = λ k. if k == 0 then 5 else 0;
  };
}

abbrev device : Device
device = record { size = 20; used = λ b. ltb b 6; block = λ b j. 0; inodes = λ k. file.copy }

file-IsFile : IsFile device file.copy.addrs
file-IsFile = record {
  boot = refl;
  table_used = λ h. absurd (h refl);
  mapped = λ m lt h. ground (arith, h);
  distinct = λ m n ltm ltn h e. ground (arith, h, e);
  apart = λ m lt h. h;
}

abbrev bytes : List ℕ
bytes = 1 ∷ 2 ∷ 3 ∷ 4 ∷ 255 ∷ []

abbrev no_writer : ℕ → Option (List ℕ → Option ℕ)
no_writer major = none

abbrev no_reader : ℕ → Option (ℕ → Option (List ℕ))
no_reader major = none

-- The inode and the device after the bytes are written at 510.
abbrev after : Inode × Device
unfolding writei write_loop bmap bmap_addr bmap_entry balloc search_from iupdate fill with_byte
after = elim (writei no_writer 510 bytes file device) [
  | none ↦ (file, device)
  | some (_, ip, d) ↦ (ip, d)
]

after-writei : writei no_writer 510 bytes file device ≡ some (some 5, after.0, after.1)
unfolding writei write_loop bmap bmap_addr bmap_entry balloc search_from iupdate fill with_byte
after-writei = refl

abbrev count : Option ℕ
count = some 5

writei_example :
    ((can_write 512 510 5 ≡ true)
      × (count ≡ some (length bytes))
      × IsWritten 510 bytes file device after.0 after.1)
    ⊎ ((can_write 512 510 5 ≡ false) × (count ≡ none) × (after.0 ≡ file) × (after.1 ≡ device))
writei_example =
    writei_lem no_writer 510 bytes file device (omega arith) (ground arith) file-IsFile after-writei

-- A read at 510 of more bytes than the file has left.
zeros-readi : readi no_reader 510 9 file device ≡ some (some (0 ∷ 0 ∷ []), file, device)
unfolding readi read_loop bmap bmap_addr bytes_at byte_of
zeros-readi = refl

abbrev zeros : Option (List ℕ)
zeros = some (0 ∷ 0 ∷ [])

readi_example :
    ((can_read 512 510 9 ≡ true)
      × (zeros ≡ some (slice (content device file.copy.addrs) 510 (cut 512 510 9)))
      × IsKept file device file device)
    ⊎ ((can_read 512 510 9 ≡ false) × (zeros ≡ none) × (file ≡ file) × (device ≡ device))
readi_example =
    readi_lem no_reader 510 9 file device (omega arith) (omega arith) file-IsFile zeros-readi

-- The path `//usr/bin/`.
names_from_path_example :
    names_from 11 (b'/' ∷ b'/' ∷ b'u' ∷ b's' ∷ b'r' ∷ b'/' ∷ b'b' ∷ b'i' ∷ b'n' ∷ b'/' ∷ [])
    ≡ some ((b'u' ∷ b's' ∷ b'r' ∷ []) ∷ (b'b' ∷ b'i' ∷ b'n' ∷ []) ∷ [])
names_from_path_example =
    names_from_path 2 (b'u' ∷ b's' ∷ b'r' ∷ []) ((0, b'b' ∷ b'i' ∷ b'n' ∷ []) ∷ []) 1 refl
      (ground arith)

-- A directory without entries, in a block of its own.
abbrev empty_dir : Inode
empty_dir = record file { copy = record file.copy { type = 1; size = 0 } }

empty_dir-IsDirectory : IsDirectory empty_dir device
empty_dir-IsDirectory = record {
  kind = refl;
  whole = refl;
  small = omega arith;
  file = file-IsFile;
  there = λ i lt. absurd (omega (arith, lt));
}

abbrev bin : List ℕ
bin = b'b' ∷ b'i' ∷ b'n' ∷ []

abbrev linked : Inode × Device
unfolding add_entry free_scan writei write_loop bmap bmap_addr bmap_entry balloc search_from iupdate
    fill with_byte padded
linked = elim (add_entry bin 7 empty_dir device) [ none ↦ (empty_dir, device) | some p ↦ p ]

linked-add_entry : add_entry bin 7 empty_dir device ≡ some (linked.0, linked.1)
unfolding add_entry free_scan writei write_loop bmap bmap_addr bmap_entry balloc search_from iupdate
    fill with_byte padded
linked-add_entry = refl

none_yet : dir_scan 1 bin 0 empty_dir device ≡ some (none, empty_dir, device)
unfolding dir_scan
none_yet = refl

dir_scan-add_entry_example :
    IsDirectory linked.0 linked.1
    × (o : ℕ) × (dir_scan (linked.0.copy.size / 16 + 1) bin 0 linked.0 linked.1
        ≡ some (
          if namecmp dirsiz bin (padded dirsiz bin) then some (o, 7) else none,
          linked.0,
          linked.1,
        ))
dir_scan-add_entry_example =
    dir_scan-add_entry bin 7 empty_dir device bin empty_dir-IsDirectory (ground arith) (omega arith)
      (omega arith) none_yet (λ e. refl) linked-add_entry

abbrev opened : OpenFile
opened = record { target = fd_inode file; readable = false; writable = true; off = 510 }

abbrev written : Writing × OpenFile × Device
written = (wrote, record opened { target = fd_inode after.0; off = 515 }, after.1)

opened-filewrite : filewrite no_writer false opened bytes device ≡ some written
unfolding filewrite write_chunks writei write_loop bmap bmap_addr bmap_entry balloc search_from
    iupdate fill with_byte
opened-filewrite = refl

filewrite_lem_example :
    (ip' : Inode) × (all : Bool) × (written.1.target ≡ fd_inode ip')
    × (wrote ≡ (if all then wrote else write_failed))
    × Progress 510 bytes file device all 515 ip' written.2
filewrite_lem_example =
    filewrite_lem no_writer false opened bytes file device refl refl (omega arith) (omega arith)
      (ground arith) file-IsFile opened-filewrite

-- The same file, open for reading at the same offset.
abbrev reading : OpenFile
reading = record { target = fd_inode after.0; readable = true; writable = false; off = 510 }

fileread-filewrite_example :
    fileread no_reader false reading 5 written.2
    ≡ some (read_bytes bytes, record reading { off = 515 }, written.2)
fileread-filewrite_example =
    fileread-filewrite no_writer no_reader false false opened bytes file device reading refl refl
      (omega arith) (omega arith) (omega arith) (ground arith) file-IsFile opened-filewrite refl
      refl refl
