-- ===== src/Xv6/Inode/Dir.antt =====
-- lab3/xv6-public/fs.c: directories, as files of entries of 16 bytes, and namex. A name is its bytes up
-- to the NUL. `none` is a panic. No driver is called for a directory.
use cs.Prelude.{
  ℕ, zero, suc, ◌+◌, ◌*◌, ◌/◌, ◌%◌, Bool, true, false, ◌&&◌, not, if◌then◌else◌, ltb, ◌==◌, Option,
  none, some, List, [], ◌∷◌, length, drop, get_or,
}
use cs.Xv6.Inode.{Inode, Device, put_inode, iget, idup, ilock, iput}
use cs.Xv6.Inode.Data.{readi, writei}
use cs.Xv6.Inode.Names.{dirsiz, skipelem}

abbrev pub t_dir : ℕ
t_dir = 1

abbrev pub rootino : ℕ
rootino = 1

abbrev pub rootdev : ℕ
rootdev = 1

-- The fields of a `struct dirent`.
abbrev pub inum_of : List ℕ → ℕ
inum_of e = get_or e 0 0 + 256 * get_or e 1 0

abbrev pub name_of : List ℕ → List ℕ
name_of e = drop 2 e

-- `strncmp (s, t, n) == 0`; bytes past the end of a name are 0.
unfoldable pub namecmp : ℕ → List ℕ → List ℕ → Bool
namecmp zero s t = true
namecmp (suc n) [] t = get_or t 0 0 == 0
namecmp (suc n) (a ∷ s) t =
    let rest = namecmp n s (drop 1 t) in
    if a == 0 then get_or t 0 0 == 0 else if a == get_or t 0 0 then rest else false

-- `strncpy` into the 14 bytes of an entry.
unfoldable pub padded : ℕ → List ℕ → List ℕ
padded zero s = []
padded (suc n) [] = 0 ∷ padded n []
padded (suc n) (a ∷ s) = a ∷ padded n s

abbrev pub dirent : List ℕ → ℕ → List ℕ
dirent name inum = inum % 256 ∷ inum / 256 % 256 ∷ padded dirsiz name

-- An entry of a directory; readi of less than an entry is a panic.
unfoldable pub read_entry : ℕ → Inode → Device → Option (List ℕ × Inode × Device)
read_entry off ip d = elim (readi (λ major. none) off 16 ip d) [
  | none ↦ none
  | some (none, _, _) ↦ none
  | some (some e, ip', d') ↦ if length e == 16 then some (e, ip', d') else none
]

-- The loop of dirlookup: the offset and the number of the inode.
unfoldable pub dir_scan : ℕ → List ℕ → ℕ → Inode → Device → Option (Option (ℕ × ℕ) × Inode × Device)
dir_scan zero name off ip d = some (none, ip, d)
dir_scan (suc fuel) name off ip d = elim (ltb off ip.copy.size) [
  | false ↦ some (none, ip, d)
  | true ↦ elim (read_entry off ip d) [
    | none ↦ none
    | some (e, ip', d') ↦ elim (not (inum_of e == 0) && namecmp dirsiz name (name_of e)) [
      | true ↦ some (some (off, inum_of e), ip', d')
      | false ↦ dir_scan fuel name (off + 16) ip' d'
    ]
  ]
]

-- The offset and the entry of the cache.
unfoldable pub dirlookup :
    ℕ → List ℕ → (ℕ → Inode) → Device → Option (Option (ℕ × ℕ) × (ℕ → Inode) × Device)
dirlookup i name cache d = elim ((cache i).copy.type == t_dir) [
  | false ↦ none
  | true ↦ elim (dir_scan ((cache i).copy.size / 16 + 1) name 0 (cache i) d) [
    | none ↦ none
    | some (none, ip, d') ↦ some (none, put_inode cache i ip, d')
    | some (some (off, inum), ip, d') ↦ elim (iget (cache i).dev inum (put_inode cache i ip)) [
      | none ↦ none
      | some (j, cache') ↦ some (some (off, j), cache', d')
    ]
  ]
]

-- The loop of dirlink: the offset of an empty entry, or the end.
unfoldable pub free_scan : ℕ → ℕ → Inode → Device → Option (ℕ × Inode × Device)
free_scan zero off ip d = some (off, ip, d)
free_scan (suc fuel) off ip d = elim (ltb off ip.copy.size) [
  | false ↦ some (off, ip, d)
  | true ↦ elim (read_entry off ip d) [
    | none ↦ none
    | some (e, ip', d') ↦ elim (inum_of e == 0) [
      | true ↦ some (off, ip', d')
      | false ↦ free_scan fuel (off + 16) ip' d'
    ]
  ]
]

-- The rest of dirlink, for a name that is not there.
unfoldable pub add_entry : List ℕ → ℕ → Inode → Device → Option (Inode × Device)
add_entry name inum ip d = elim (free_scan (ip.copy.size / 16 + 1) 0 ip d) [
  | none ↦ none
  | some (off, ip', d') ↦ elim (writei (λ major. none) off (dirent name inum) ip' d') [
    | none ↦ none
    | some (none, _, _) ↦ none
    | some (some k, ip'', d'') ↦ if k == 16 then some (ip'', d'') else none
  ]
]

-- `true` for 0, `false` for -1.
unfoldable pub dirlink :
    ℕ → List ℕ → ℕ → (ℕ → Inode) → Device → Option (Bool × (ℕ → Inode) × Device)
dirlink i name inum cache d = elim (dirlookup i name cache d) [
  | none ↦ none
  | some (some (off, j), cache', d') ↦ elim (iput j d' cache') [
    | none ↦ none
    | some (cache'', d'') ↦ some (false, cache'', d'')
  ]
  | some (none, cache', d') ↦ elim (add_entry name inum (cache' i) d') [
    | none ↦ none
    | some (ip, d'') ↦ some (true, put_inode cache' i ip, d'')
  ]
]

-- iput and 0.
abbrev pub give_back :
    ℕ → (ℕ → Inode) → Device → Option (Option (ℕ × List ℕ) × (ℕ → Inode) × Device)
give_back i cache d = elim (iput i d cache) [
  | none ↦ none
  | some (cache', d') ↦ some (none, cache', d')
]

-- The loop of namex: the entry of the cache, and the last name.
unfoldable pub walk :
    ℕ
    → Bool
    → List ℕ
    → List ℕ
    → ℕ
    → (ℕ → Inode)
    → Device
    → Option (Option (ℕ × List ℕ) × (ℕ → Inode) × Device)
walk zero parent path last i cache d = none
walk (suc fuel) parent path last i cache d = elim (skipelem path) [
  | none ↦ if parent then give_back i cache d else some (some (i, last), cache, d)
  | some (name, rest) ↦ elim (ilock d (cache i)) [
    | none ↦ none
    | some ip ↦
        let locked = put_inode cache i ip in
        if not (ip.copy.type == t_dir)
        then give_back i locked d
        else if parent && (length rest == 0)
        then some (some (i, name), locked, d)
        else elim (dirlookup i name locked d) [
          | none ↦ none
          | some (none, cache', d') ↦ give_back i cache' d'
          | some (some (off, j), cache', d') ↦ elim (iput i d' cache') [
            | none ↦ none
            | some (cache'', d'') ↦ walk fuel parent rest name j cache'' d''
          ]
        ]
  ]
]

-- namex, from the current directory `cwd`; the first inode is had by iget or idup.
unfoldable pub namex :
    ℕ → Bool → List ℕ → (ℕ → Inode) → Device → Option (Option (ℕ × List ℕ) × (ℕ → Inode) × Device)
namex cwd parent path cache d =
    if get_or path 0 0 == b'/'
    then elim (iget rootdev rootino cache) [
      | none ↦ none
      | some (i, cache') ↦ walk (length path + 1) parent path [] i cache' d
    ]
    else walk (length path + 1) parent path [] cwd (idup cwd cache) d
