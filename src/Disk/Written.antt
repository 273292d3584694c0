-- ===== src/Disk/Written.antt =====
-- A block that is written over several files is written into the torrent's bytes as a whole.
use vincenzo.Prelude.{
  ℕ, ◌+◌, ◌-◌, ◌≤◌, ◌≡◌, refl, sym, ◌∙◌, subst, ap, ap₂, Bool, true, false, List, [], ◌∷◌, ◌++◌,
  length, length-drop, take, drop, leb, min, Bool-cases, inl, inr, leb→le, leb→lt, ◌&&◌, arith,
}
use Prim.Native.Nat.{max}
use vincenzo.Prelude.HashMap.{lookup, insert}
use vincenzo.Prelude.Keys.{bytes_discrete}
use vincenzo.Prelude.Slices.{
  overwrite, overwrite-append, overwrite-nil, overwrite_behind, overwrite-take, drop-drop, drop_all,
  take_all, length-overwrite,
}
use vincenzo.Outcome.{Outcome, ok}
use vincenzo.Disk.State.{FilePath, Files, FileMetadata}
use vincenzo.Disk.Write.{ops_loop, apply_ops}
use vincenzo.Disk.Image.{
  lookup-insert_self, IsLaid, IsAway, IsDistinct, IsMapped, IsLaid-le, content, image,
  lookup-insert_away, IsMapped-insert, image-insert,
}

module _ (missing : FilePath → Outcome (List ℕ)) (start end total : ℕ) (block : List ℕ)
    (clamped : end ≡ min (start + length block) total) where
  -- what the block puts into the part of the torrent from the offset on
  abbrev pub put_from : ℕ → List ℕ → List ℕ
  put_from offset bs = overwrite (start - offset) (drop (offset - start) block) bs

  abbrev run : List FileMetadata → Files → Outcome (Unit {0}) × Files
  run fs files = apply_ops missing (ops_loop start end fs) block files

  pub record Written (offset : ℕ) (fs : List FileMetadata) (files : Files)
      (r : Outcome (Unit {0}) × Files) : Type 0 where
    pub done : r.0 ≡ ok tt
    pub mapped : IsMapped fs r.1
    pub bytes : image fs r.1 ≡ put_from offset (image fs files)
    pub others :
        (p : FilePath) → IsAway p fs → lookup bytes_discrete p r.1 ≡ lookup bytes_discrete p files

  -- one file that the block overlaps
  put_file :
      (f : FileMetadata) (c : List ℕ)
      → length c ≡ f.length
      → f.start_offset + f.length ≤ total
      → leb (min end (f.start_offset + f.length)) (max start f.start_offset) ≡ false
      → overwrite
          (max start f.start_offset - f.start_offset)
          (take
            (min end (f.start_offset + f.length) - start - (max start f.start_offset - start))
            (drop (max start f.start_offset - start) block))
          c
        ≡ put_from f.start_offset c
  put_file f c e h t =
      let a : max start f.start_offset - f.start_offset ≡ start - f.start_offset = omega arith in
      let b : max start f.start_offset - start ≡ f.start_offset - start = omega arith in
      let k = min end (f.start_offset + f.length) - start - (f.start_offset - start) in
      let u = leb→lt _ _ t in
      let n : ℕ = length (drop (f.start_offset - start) block) in
      rw (a, b)
        (elim (Bool-cases (leb n k)) [
          | inl le ↦ rw (take_all k (drop (f.start_offset - start) block) (leb→le _ _ le))
          | inr gt ↦
              overwrite-take (start - f.start_offset) k (drop (f.start_offset - start) block) c
                (omega (arith, leb→lt _ _ gt, length-drop (f.start_offset - start) block))
        ])

  -- one file that the block passes by
  put_nothing :
      (f : FileMetadata) (c : List ℕ)
      → length c ≡ f.length
      → f.start_offset + f.length ≤ total
      → leb (min end (f.start_offset + f.length)) (max start f.start_offset) ≡ true
      → c ≡ put_from f.start_offset c
  put_nothing f c e h t = elim (Bool-cases (leb (length c) (start - f.start_offset))) [
    | inl le ↦ sym (
        overwrite_behind (start - f.start_offset) (drop (f.start_offset - start) block) c
          (leb→le _ _ le))
    | inr gt ↦ sym (
        rw (drop_all (f.start_offset - start) block (omega (arith, leb→lt _ _ gt, leb→le _ _ t)))
          (overwrite-nil (start - f.start_offset) c))
  ]

  -- the bytes of a file and those behind it, put together
  put_from-append :
      (offset : ℕ) (c r : List ℕ)
      → put_from offset (c ++ r) ≡ put_from offset c ++ put_from (offset + length c) r
  put_from-append offset c r =
      let a : start - offset - length c ≡ start - (offset + length c) = omega arith in
      let b : offset - start + (length c - (start - offset)) ≡ offset + length c - start =
        omega arith in
      overwrite-append (start - offset) (drop (offset - start) block) c r
      ∙ rw (a, drop-drop (length c - (start - offset)) (offset - start) block, b)

  -- the range of the file and that of the block are there
  in_range :
      (f : FileMetadata) (c : List ℕ)
      → length c ≡ f.length
      → leb (min end (f.start_offset + f.length)) (max start f.start_offset) ≡ false
      → leb
            (max start f.start_offset
              - f.start_offset
              + (min end (f.start_offset + f.length) - start - (max start f.start_offset - start)))
            (length c)
          && leb (min end (f.start_offset + f.length) - start) (length block)
        ≡ true
  in_range f c e t = ground (arith, leb→lt _ _ t)

  -- the file after the copy
  abbrev file_after : FileMetadata → Files → List ℕ
  file_after f files =
      overwrite (max start f.start_offset - f.start_offset)
        (take (min end (f.start_offset + f.length) - start - (max start f.start_offset - start))
          (drop (max start f.start_offset - start) block))
        (content f.path files)

  abbrev passes : FileMetadata → Bool
  passes f = leb (min end (f.start_offset + f.length)) (max start f.start_offset)

  run-passed :
      (f : FileMetadata) (fs : List FileMetadata) (files : Files)
      → passes f ≡ true
      → run (f ∷ fs) files ≡ run fs files
  unfolding ops_loop
  run-passed f fs files t = rw t

  run-copied :
      (f : FileMetadata) (fs : List FileMetadata) (files : Files)
      → IsMapped (f ∷ fs) files
      → passes f ≡ false
      → run (f ∷ fs) files ≡ run fs (insert bytes_discrete f.path (file_after f files) files)
  unfolding ops_loop apply_ops
  run-copied f fs files m t = rw (t, m.0, in_range f (content f.path files) m.1 t)

  Written-passed :
      (f : FileMetadata) (fs : List FileMetadata) (files : Files) (r : Outcome (Unit {0}) × Files)
      → IsDistinct (f ∷ fs)
      → IsMapped (f ∷ fs) files
      → f.start_offset + f.length ≤ total
      → passes f ≡ true
      → Written (f.start_offset + f.length) fs files r
      → Written f.start_offset (f ∷ fs) files r
  Written-passed f fs files r d m h t w =
      let same = w.others f.path d.0 in
      record {
        done = w.done;
        mapped = rw same (m.0, m.1, w.mapped);
        bytes = rw same (
            ap₂ (λ x y. x ++ y) (put_nothing f (content f.path files) m.1 h t)
              (w.bytes ∙ ap (λ n. put_from (f.start_offset + n) (image fs files)) (sym m.1))
            ∙ sym (put_from-append f.start_offset (content f.path files) (image fs files)));
        others = λ p a. w.others p a.1;
      }

  Written-copied :
      (f : FileMetadata) (fs : List FileMetadata) (files : Files) (r : Outcome (Unit {0}) × Files)
      → IsDistinct (f ∷ fs)
      → IsMapped (f ∷ fs) files
      → f.start_offset + f.length ≤ total
      → passes f ≡ false
      → Written
          (f.start_offset + f.length)
          fs
          (insert bytes_discrete f.path (file_after f files) files)
          r
      → Written f.start_offset (f ∷ fs) files r
  Written-copied f fs files r d m h t w =
      let c = file_after f files in
      let here = w.others f.path d.0 ∙ lookup-insert_self f.path c files in
      let size =
        length-overwrite (max start f.start_offset - f.start_offset)
          (take (min end (f.start_offset + f.length) - start - (max start f.start_offset - start))
            (drop (max start f.start_offset - start) block))
          (content f.path files) in
      record {
        done = w.done;
        mapped = rw here (refl, size ∙ m.1, w.mapped);
        bytes = rw here (
            ap₂ (λ x y. x ++ y) (put_file f (content f.path files) m.1 h t)
              (w.bytes
                ∙ ap₂ (λ n i. put_from (f.start_offset + n) i) (sym m.1)
                    (image-insert f.path c files fs d.0))
            ∙ sym (put_from-append f.start_offset (content f.path files) (image fs files)));
        others = λ p a. w.others p a.1 ∙ lookup-insert_away f.path c files p (λ e. a.0 (sym e));
      }

  Written-file :
      (f : FileMetadata) (fs : List FileMetadata) (files : Files)
      → IsDistinct (f ∷ fs)
      → IsMapped (f ∷ fs) files
      → f.start_offset + f.length ≤ total
      → ((files' : Files)
          → IsMapped fs files'
          → Written (f.start_offset + f.length) fs files' (run fs files'))
      → Written f.start_offset (f ∷ fs) files (run (f ∷ fs) files)
  Written-file f fs files d m h rest = elim (Bool-cases (passes f)) [
    | inl t ↦
        rw (run-passed f fs files t)
          (Written-passed f fs files (run fs files) d m h t (rest files m.2))
    | inr t ↦
        let files' = insert bytes_discrete f.path (file_after f files) files in
        rw (run-copied f fs files m t) (
          Written-copied f fs files (run fs files') d m h t
            (rest files' (IsMapped-insert f.path (file_after f files) files fs d.0 m.2)))
  ]

  pub ops-Written :
      (offset : ℕ) (fs : List FileMetadata) (files : Files)
      → IsLaid offset fs total
      → IsDistinct fs
      → IsMapped fs files
      → Written offset fs files (run fs files)
  unfolding ops_loop apply_ops
  ops-Written offset [] files l d m = record {
    done = refl;
    mapped = tt;
    bytes = refl;
    others = λ p a. refl;
  }
  ops-Written offset (f ∷ fs) files l d m =
      subst (λ o. Written o (f ∷ fs) files (run (f ∷ fs) files)) l.0
        (Written-file f fs files d m (omega (arith, IsLaid-le (offset + f.length) total fs l.1))
          (λ files' m'. ops-Written (f.start_offset + f.length) fs files' (rw l.0 l.1) d.1 m'))
