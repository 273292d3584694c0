-- ===== src/Disk/Found.antt =====
-- The file in which a block starts, and what is read of it.
use vincenzo.Prelude.{
  ℕ, ◌+◌, ◌-◌, ◌≤◌, ◌<◌, ◌≡◌, sym, ◌∙◌, ap, subst, ◌&&◌, some, List, [], ◌∷◌, ◌++◌, append-nil,
  length, length-drop, take, drop, leb, ltb, Bool-cases, inl, inr, le→leb, lt→ltb, le→ltb, ltb→lt,
  ltb→le, arith,
}
use vincenzo.Prelude.HashMap.{lookup}
use vincenzo.Prelude.Keys.{bytes_discrete}
use vincenzo.Prelude.Slices.{take-append, drop-append, drop_all}
use vincenzo.Disk.State.{Files, FileMetadata}
use vincenzo.Disk.Blocks.{find_file}
use vincenzo.Disk.Image.{IsLaid, IsLaid-le, IsMapped, content, image}

take_within : (k : ℕ) (xs ys : List ℕ) → k ≤ length xs → take k (xs ++ ys) ≡ take k xs
take_within k xs ys h =
    let e : k - length xs ≡ 0 = omega arith in take-append k xs ys ∙ rw e (append-nil (take k xs))

module _ (files : Files) (at total : ℕ) (inside : at < total) where
  pub record Found (offset : ℕ) (fs : List FileMetadata) : Type 0 where
    pub file : FileMetadata
    pub is_found : find_file at fs ≡ some file
    pub starts : file.start_offset ≤ at
    pub ends : at < file.start_offset + file.length
    pub opens : lookup bytes_discrete file.path files ≡ some (content file.path files)
    pub long : length (content file.path files) ≡ file.length
    pub reads :
        (len : ℕ)
        → at + len ≤ file.start_offset + file.length
        → take len (drop (at - file.start_offset) (content file.path files))
          ≡ take len (drop (at - offset) (image fs files))

  here-Found :
      (f : FileMetadata) (fs : List FileMetadata)
      → IsMapped (f ∷ fs) files
      → f.start_offset ≤ at
      → at < f.start_offset + f.length
      → Found f.start_offset (f ∷ fs)
  unfolding find_file
  here-Found f fs m a b = record {
    file = f;
    is_found = rw (le→leb f.start_offset at a, lt→ltb at (f.start_offset + f.length) b);
    starts = a;
    ends = b;
    opens = m.0;
    long = m.1;
    reads = λ len h. sym (
        ap (take len) (drop-append (at - f.start_offset) (content f.path files) (image fs files))
        ∙ take_within len (drop (at - f.start_offset) (content f.path files)) _
            (omega (arith, length-drop (at - f.start_offset) (content f.path files), m.1)));
  }

  behind-Found :
      (f : FileMetadata) (fs : List FileMetadata)
      → IsMapped (f ∷ fs) files
      → f.start_offset + f.length ≤ at
      → Found (f.start_offset + f.length) fs
      → Found f.start_offset (f ∷ fs)
  unfolding find_file
  behind-Found f fs m a r =
      let k : at - f.start_offset - length (content f.path files)
          ≡ at - (f.start_offset + f.length) =
        omega (arith, m.1) in
      record {
        file = r.file;
        is_found =
            rw (le→ltb at (f.start_offset + f.length) a, le→leb f.start_offset at (omega arith))
              r.is_found;
        starts = r.starts;
        ends = r.ends;
        opens = r.opens;
        long = r.long;
        reads = λ len h.
            r.reads len h
            ∙ ap (take len) (
                sym (
                  drop-append (at - f.start_offset) (content f.path files) (image fs files)
                  ∙ rw (
                    drop_all (at - f.start_offset) (content f.path files) (omega (arith, m.1)),
                    k,
                  )));
      }

  pub find_file-Found :
      (offset : ℕ) (fs : List FileMetadata)
      → IsLaid offset fs total
      → IsMapped fs files
      → offset ≤ at
      → Found offset fs
  find_file-Found offset [] l m h = absurd (omega arith)
  find_file-Found offset (f ∷ fs) l m h =
      subst (λ o. Found o (f ∷ fs)) l.0
        (elim (Bool-cases (ltb at (f.start_offset + f.length))) [
          | inl t ↦ here-Found f fs m (rw l.0 h) (ltb→lt at (f.start_offset + f.length) t)
          | inr n ↦ behind-Found f fs m (ltb→le at (f.start_offset + f.length) n) (
              find_file-Found (f.start_offset + f.length) fs (rw l.0 l.1) m.2
                (ltb→le at (f.start_offset + f.length) n))
        ])

-- The file that is found ends within the torrent.
pub find_file-le :
    (at offset total : ℕ) (fs : List FileMetadata) (f : FileMetadata)
    → IsLaid offset fs total
    → find_file at fs ≡ some f
    → f.start_offset + f.length ≤ total
unfolding find_file
find_file-le at offset total [] f l e = cc
find_file-le at offset total (g ∷ fs) f l e =
    elim (Bool-cases (leb g.start_offset at && ltb at (g.start_offset + g.length))) [
      | inl t ↦
          let same : g ≡ f = cc (rw t at e) in
          subst (λ h. h.start_offset + h.length ≤ total) same
            (omega (arith, l.0, IsLaid-le (offset + g.length) total fs l.1))
      | inr n ↦ find_file-le at (offset + g.length) total fs f l.1 (rw n at e)
    ]
