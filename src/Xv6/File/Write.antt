-- ===== src/Xv6/File/Write.antt =====
-- lab3/xv6-public/file.c: what filewrite puts into a file, chunk by chunk.
use cs.Prelude.{
  ℕ, zero, suc, ◌+◌, ◌*◌, ◌/◌, ◌≤◌, ◌<◌, ◌≡◌, ◌≢◌, ◌∙◌, ◌⊎◌, refl, sym, ap, subst, arith, Bool,
  true, false, if◌then◌else◌, ltb, ◌==◌, Option, some, Option-cases, Bool-cases, inl, inr, List, [],
  ◌∷◌, ◌++◌, length, take, drop, take-append-drop, length-append, length-take, length-drop,
}
use mathlib.Core.List.{append_assoc}
use cs.Xv6.Pipe.{Writing, wrote, write_failed}
use cs.Xv6.Inode.{Inode, Device}
use cs.Xv6.Inode.Bytes.{AllBytes}
use cs.Xv6.Inode.Data.{bsize, maxfile, t_dev, writei}
use cs.Xv6.Inode.Content.{content, IsFile}
use cs.Xv6.Inode.File.{IsWritten, can_write, writei_lem}
use cs.Xv6.Inode.Write.{overlay, overlay-drop, overlay-congr, AllBytes-take, AllBytes-drop}
use cs.Xv6.File.Io.{OpenFile, fd_inode, advance, write_size, write_chunks, filewrite}

take-append : (a b : List ℕ) → take (length a) (a ++ b) ≡ a
take-append [] [] = refl
take-append [] (x ∷ b) = refl
take-append (x ∷ a) b = ap (◌∷◌ x) (take-append a b)

drop-append : (a b : List ℕ) → drop (length a) (a ++ b) ≡ b
drop-append [] [] = refl
drop-append [] (x ∷ b) = refl
drop-append (x ∷ a) b = drop-append a b

overlay-append :
    (off : ℕ) (a b : List ℕ) (c : ℕ → ℕ) (i : ℕ)
    → overlay (off + length a) b (overlay off a c) i ≡ overlay off (a ++ b) c i
overlay-append off a b c i =
    rw (take-append a b, drop-append a b) at
      (overlay-drop off (length a) (a ++ b) c i (omega (arith, length-append a b)))

-- One write after another that starts where it ended.
IsWritten-append :
    (off : ℕ) (a b : List ℕ) {ip ip1 ip2 : Inode} {d d1 d2 : Device}
    → off + length a ≤ maxfile * bsize
    → IsWritten off a ip d ip1 d1
    → IsWritten (off + length a) b ip1 d1 ip2 d2
    → IsWritten off (a ++ b) ip d ip2 d2
IsWritten-append off a b {ip} {ip1} {ip2} {d} {d1} {d2} max x y =
    let both = length-append a b in
    record {
      size = ground (arith, both, x.size, y.size);
      file = y.file;
      written = λ i lt.
          y.written i lt
          ∙ overlay-congr (off + length a) b (content d1 ip1.copy.addrs)
              (overlay off a (content d ip.copy.addrs)) i (x.written i lt)
          ∙ overlay-append off a b (content d ip.copy.addrs) i;
      there = λ i lo hi. elim (Bool-cases (ltb i (off + length a))) [
        | inl first ↦
            y.kept (i / bsize) (ground (arith, first, max)) (x.there i lo (ground (arith, first)))
        | inr second ↦ y.there i (ground (arith, second)) (omega (arith, hi, both))
      ];
      kept = λ m lt h. y.kept m lt (x.kept m lt h);
      kind = y.kind ∙ x.kind;
    }

IsWritten-nil :
    (off : ℕ) (ip : Inode) (d : Device)
    → off ≤ ip.copy.size
    → IsFile d ip.copy.addrs
    → IsWritten off [] ip d ip d
IsWritten-nil off ip d le f = record {
  size = ground (arith, le);
  file = f;
  written = λ i lt. ground arith;
  there = λ i lo hi. absurd (omega (arith, lo, hi));
  kept = λ m lt h. h;
  kind = refl;
}

-- How far the loop came: the bytes before `rest` are in the file, and if it stopped before the end,
-- the next chunk of `rest` cannot be written.
pub record Progress (off : ℕ) (src : List ℕ) (ip : Inode) (d : Device) (all : Bool) (off' : ℕ)
    (ip' : Inode) (d' : Device) : Type 0 where
  pub front : List ℕ
  pub rest : List ℕ
  pub split : src ≡ front ++ rest
  pub at : off' ≡ off + length front
  pub written : IsWritten off front ip d ip' d'
  pub max : (front ≡ []) ⊎ (off + length front ≤ maxfile * bsize)
  pub why :
      ((all ≡ true) × (rest ≡ []))
      ⊎ ((all ≡ false) × (can_write ip'.copy.size off' (write_size (length rest)) ≡ false))

write_size_le : (n : ℕ) → write_size n ≤ n
write_size_le n = ground arith

write_size_pos : (n : ℕ) → 0 < n → 0 < write_size n
write_size_pos n h = ground (arith, h)

length-nil : (src : List ℕ) → length src ≡ 0 → src ≡ []
length-nil [] e = refl
length-nil (x ∷ xs) e = absurd (omega (arith, e))

Progress-end :
    (off : ℕ) (src : List ℕ) (ip : Inode) (d : Device)
    → length src ≡ 0
    → off ≤ ip.copy.size
    → IsFile d ip.copy.addrs
    → Progress off src ip d true off ip d
Progress-end off src ip d over start f = record {
  front = [];
  rest = [];
  split = length-nil src over;
  at = omega arith;
  written = IsWritten-nil off ip d start f;
  max = inl refl;
  why = inl (refl, refl);
}

-- The same result, named twice.
Progress-result :
    {off : ℕ} {src : List ℕ} {ip : Inode} {d : Device} (r : Option (Bool × ℕ × Inode × Device))
    {all all' : Bool} {off1 off' : ℕ} {ip1 ip' : Inode} {d1 d' : Device}
    → r ≡ some (all, off1, ip1, d1)
    → r ≡ some (all', off', ip', d')
    → Progress off src ip d all off1 ip1 d1
    → Progress off src ip d all' off' ip' d'
Progress-result {off = off} {src = src} {ip = ip} {d = d} r {all} {all'} {off1} {off'} {ip1} {ip'}
      {d1} {d'} e e' p =
    let result : all ≡ all' = ground (arith, e, e') in
    let place : off1 ≡ off' = ground (arith, e, e') in
    let inode : ip1 ≡ ip' = ground (arith, e, e') in
    let device : d1 ≡ d' = ground (arith, e, e') in rw (← result, ← place, ← inode, ← device) p

-- The next chunk cannot be written.
Progress-stop :
    (off : ℕ) (src : List ℕ) (ip : Inode) (d : Device)
    → off ≤ ip.copy.size
    → IsFile d ip.copy.addrs
    → can_write ip.copy.size off (write_size (length src)) ≡ false
    → Progress off src ip d false off ip d
Progress-stop off src ip d start f bad = record {
  front = [];
  rest = src;
  split = refl;
  at = omega arith;
  written = IsWritten-nil off ip d start f;
  max = inl refl;
  why = inr (refl, bad);
}

-- A chunk in front of what the rest of the loop does.
Progress-chunk :
    (off n1 : ℕ) (src : List ℕ) {ip ip1 ip' : Inode} {d d1 d' : Device} {all : Bool} {off' : ℕ}
    → n1 ≤ length src
    → off + n1 ≤ maxfile * bsize
    → IsWritten off (take n1 src) ip d ip1 d1
    → Progress (off + n1) (drop n1 src) ip1 d1 all off' ip' d'
    → Progress off src ip d all off' ip' d'
Progress-chunk off n1 src {ip1 = ip1} {ip' = ip'} {d1 = d1} {d' = d'} le max x p =
    let len : length (take n1 src) ≡ n1 = ground (arith, length-take n1 src, le) in
    let later = subst (λ m. IsWritten (off + m) p.front ip1 d1 ip' d') (sym len) p.written in
    record {
      front = take n1 src ++ p.front;
      rest = p.rest;
      split =
          sym (take-append-drop n1 src)
          ∙ ap (◌++◌ (take n1 src)) p.split
          ∙ sym (append_assoc (take n1 src) p.front p.rest);
      at = omega (arith, p.at, len, length-append (take n1 src) p.front);
      written = IsWritten-append off (take n1 src) p.front (omega (arith, len, max)) x later;
      max = inr (elim p.max [
        | inl none_more ↦
            (let last : length p.front ≡ 0 = ap length none_more in
              omega (arith, length-append (take n1 src) p.front, len, last, max))
        | inr fits ↦ omega (arith, length-append (take n1 src) p.front, len, fits)
      ]);
      why = p.why;
    }

write_chunks-Progress :
    (driver : ℕ → Option (List ℕ → Option ℕ)) (fuel off : ℕ) (src : List ℕ) (ip : Inode)
    (d : Device) {all : Bool} {off' : ℕ} {ip' : Inode} {d' : Device}
    → length src ≤ fuel
    → off ≤ ip.copy.size
    → ip.copy.type ≢ t_dev
    → AllBytes src
    → IsFile d ip.copy.addrs
    → write_chunks driver fuel off src ip d ≡ some (all, off', ip', d')
    → Progress off src ip d all off' ip' d'
unfolding write_chunks
write_chunks-Progress driver zero off src ip d {all} {off'} {ip'} {d'} le start file bytes f e =
    Progress-result (write_chunks driver zero off src ip d) (ground (arith, le)) e
      (Progress-end off src ip d (omega (arith, le)) start f)
write_chunks-Progress driver (suc fuel) off src ip d {all} {off'} {ip'} {d'} le start file bytes f
      e =
    let n1 = write_size (length src) in
    elim (Bool-cases (length src == 0)) [
      | inl over ↦
          Progress-result (write_chunks driver (suc fuel) off src ip d) (ground (arith, over)) e
            (Progress-end off src ip d (ground (arith, over)) start f)
      | inr more ↦ elim (Option-cases (writei driver off (take n1 src) ip d)) [
        | inl g ↦ absurd (ground (arith, e, more, g))
        | inr ((r, ip1, d1), g) ↦
            let len : length (take n1 src) ≡ n1 =
              ground (arith, length-take n1 src, write_size_le (length src)) in
            elim (writei_lem driver off (take n1 src) ip d file (AllBytes-take src n1 bytes) f g) [
              | inl (good, got, x) ↦
                  let whole : r ≡ some n1 = got ∙ ap some len in
                  let max : off + n1 ≤ maxfile * bsize = ground (arith, good, len) in
                  let next : advance off n1 ≡ off + n1 = omega (arith, max) in
                  let tail : write_chunks driver fuel (off + n1) (drop n1 src) ip1 d1
                      ≡ some (all, off', ip', d') =
                    ground (arith, e, more, g, whole, next) in
                  Progress-chunk off n1 src (write_size_le (length src)) max x (
                    write_chunks-Progress driver fuel (off + n1) (drop n1 src) ip1 d1
                      (omega (
                        arith,
                        le,
                        length-drop n1 src,
                        write_size_pos (length src) (ground (arith, more)),
                      ))
                      (ground (arith, x.size, len)) (ground (arith, file, x.kind))
                      (AllBytes-drop src n1 bytes) x.file tail)
              | inr (bad, failed, same, same_disk) ↦
                  Progress-result (write_chunks driver (suc fuel) off src ip d)
                    (ground (arith, more, g, failed, same, same_disk)) e
                    (Progress-stop off src ip d start f
                      (subst (λ m. can_write ip.copy.size off m ≡ false) len bad))
            ]
      ]
    ]

-- When filewrite to a writable file that is an inode and no device, at an offset of at most its
-- size, of bytes, with the file's blocks different and in use, does not panic: a first part of
-- the bytes is in the file at the old offset, the rest of the file is as it was, the size grows
-- to the end of that part if that is larger, and the offset has moved by its length. It returns
-- the number of bytes if that part is all of them, and -1 if the next chunk of at most 1536 bytes
-- cannot be written at the new offset.
pub filewrite_lem :
    (driver : ℕ → Option (List ℕ → Option ℕ)) (killed : Bool) (f : OpenFile) (src : List ℕ)
    (ip : Inode) (d : Device) {r : Writing} {f' : OpenFile} {d' : Device}
    → f.writable ≡ true
    → f.target ≡ fd_inode ip
    → f.off ≤ ip.copy.size
    → ip.copy.type ≢ t_dev
    → AllBytes src
    → IsFile d ip.copy.addrs
    → filewrite driver killed f src d ≡ some (r, f', d')
    → (ip' : Inode) × (all : Bool) × (f'.target ≡ fd_inode ip')
      × (r ≡ (if all then wrote else write_failed))
      × Progress f.off src ip d all f'.off ip' d'
unfolding filewrite
filewrite_lem driver killed f src ip d {r} {f'} {d'} writable target start file bytes is e =
    elim (Option-cases (write_chunks driver (length src) f.off src ip d)) [
      | inl g ↦ absurd (ground (arith, e, writable, target, g))
      | inr ((all, off1, ip1, d1), g) ↦
          let device : d1 ≡ d' = ground (arith, e, writable, target, g) in
          let place : off1 ≡ f'.off = ground (arith, e, writable, target, g) in
          (
            ip1,
            all,
            ground (arith, e, writable, target, g),
            ground (arith, e, writable, target, g),
            rw (← device, ← place)
                (write_chunks-Progress driver (length src) f.off src ip d (omega arith) start file
                  bytes is g),
          )
    ]
