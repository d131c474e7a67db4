-- ===== src/Xv6/File/Back.antt =====
-- lab3/xv6-public/file.c: fileread of what filewrite wrote, through any open file of the same inode.
use cs.Prelude.{
  ℕ, ◌+◌, ◌*◌, ◌≤◌, ◌<◌, ◌≡◌, ◌≢◌, ◌∙◌, sym, ap, subst, arith, Bool, true, Option, some, List, ◌++◌,
  length, inl, inr,
}
use mathlib.Core.List.{append-nil}
use cs.Xv6.Pipe.{wrote, read_bytes}
use cs.Xv6.Inode.{Inode, Device}
use cs.Xv6.Inode.Bytes.{AllBytes}
use cs.Xv6.Inode.Data.{bsize, maxfile, t_dev, readi}
use cs.Xv6.Inode.Content.{IsFile}
use cs.Xv6.Inode.File.{IsWritten, readi-IsWritten}
use cs.Xv6.File.Io.{OpenFile, fd_inode, advance, fileread, filewrite}
use cs.Xv6.File.Write.{Progress, filewrite_lem}

-- All the bytes are written.
Progress-all :
    {off : ℕ} {src : List ℕ} {ip : Inode} {d : Device} {off' : ℕ} {ip' : Inode} {d' : Device}
    → 0 < length src
    → Progress off src ip d true off' ip' d'
    → (off' ≡ off + length src)
      × (off + length src ≤ maxfile * bsize)
      × IsWritten off src ip d ip' d'
Progress-all {off} {src} {ip} {d} {off'} {ip'} {d'} some_bytes p = elim p.why [
  | inr (stopped, _) ↦ absurd (ground (arith, stopped))
  | inl (_, over) ↦
      let all : src ≡ p.front = p.split ∙ ap (◌++◌ p.front) over ∙ append-nil p.front in
      let len : length src ≡ length p.front = ap length all in
      (
        omega (arith, p.at, len),
        elim p.max [
          | inl none_written ↦ absurd (
              let zero_bytes : length p.front ≡ 0 = ap length none_written in
              omega (arith, zero_bytes, len, some_bytes))
          | inr fits ↦ omega (arith, fits, len)
        ],
        subst (λ s. IsWritten off s ip d ip' d') (sym all) p.written,
      )
]

fileread-inode :
    (reader : ℕ → Option (ℕ → Option (List ℕ))) (killed : Bool) (g : OpenFile) (n : ℕ) (ip : Inode)
    (d : Device) (bytes : List ℕ)
    → g.readable ≡ true
    → g.target ≡ fd_inode ip
    → readi reader g.off n ip d ≡ some (some bytes, ip, d)
    → fileread reader killed g n d
      ≡ some (read_bytes bytes, record g { off = advance g.off (length bytes) }, d)
unfolding fileread
fileread-inode reader killed g n ip d bytes readable target e = ground (arith, readable, target, e)

-- When filewrite of bytes, one at least, to a writable file that is an inode and no device, at an
-- offset of at most its size, with the file's blocks different and in use, writes them all:
-- fileread of as many bytes through a readable open file of the same inode, at the offset where
-- the write began, returns them, moves its offset to where the write ended, and changes neither
-- the inode nor the device.
pub fileread-filewrite :
    (writer : ℕ → Option (List ℕ → Option ℕ)) (reader : ℕ → Option (ℕ → Option (List ℕ)))
    (killed killed' : Bool) (f : OpenFile) (src : List ℕ) (ip : Inode) (d : Device) {f' : OpenFile}
    {d' : Device} (g : OpenFile)
    → f.writable ≡ true
    → f.target ≡ fd_inode ip
    → f.off ≤ ip.copy.size
    → ip.copy.type ≢ t_dev
    → 0 < length src
    → AllBytes src
    → IsFile d ip.copy.addrs
    → filewrite writer killed f src d ≡ some (wrote, f', d')
    → g.readable ≡ true
    → g.target ≡ f'.target
    → g.off ≡ f.off
    → fileread reader killed' g (length src) d'
      ≡ some (read_bytes src, record g { off = f'.off }, d')
fileread-filewrite writer reader killed killed' f src ip d {f'} {d'} g writable target start file
      some_bytes bytes is e readable same_inode same_off =
    let (ip', all, target', result, p) =
      filewrite_lem writer killed f src ip d writable target start file bytes is e in
    let success : all ≡ true = ground (arith, result) in
    let (at, max, written) =
      Progress-all some_bytes (subst (λ b. Progress f.off src ip d b f'.off ip' d') success p) in
    let back = readi-IsWritten reader f.off src ip d ip' d' file max written in
    let next : advance g.off (length src) ≡ f'.off = omega (arith, at, max, same_off) in
    fileread-inode reader killed' g (length src) ip' d' src readable (same_inode ∙ target')
      (ap (λ o. readi reader o (length src) ip' d') same_off ∙ back)
    ∙ ap (λ o. some (read_bytes src, record g { off = o }, d')) next
