-- ===== src/Disk/Image.antt =====
-- The torrent as one sequence of bytes, the contents of its files one after the other.
use vincenzo.Prelude.{
  ℕ, ◌+◌, ◌≤◌, ◌≡◌, ◌≢◌, refl, ◌∙◌, ap₂, Option, none, some, List, [], ◌∷◌, ◌++◌, length,
  length-append, All, arith,
}
use mathlib.Core.Logic.{if_pos, if_neg}
use vincenzo.Prelude.HashMap.{lookup, insert, lookup-insert}
use vincenzo.Prelude.Keys.{bytes_discrete}
use vincenzo.Disk.State.{FilePath, Files, FileMetadata}

-- the files follow one another from an offset to the end of the torrent
abbrev pub IsLaid : ℕ → List FileMetadata → ℕ → Type 0
IsLaid offset [] end = offset ≡ end
IsLaid offset (f ∷ fs) end = (f.start_offset ≡ offset) × IsLaid (offset + f.length) fs end

abbrev pub IsAway : FilePath → List FileMetadata → Type 0
IsAway p fs = All (λ f. p ≢ f.path) fs

-- no two files have one path
abbrev pub IsDistinct : List FileMetadata → Type 0
IsDistinct [] = Unit
IsDistinct (f ∷ fs) = IsAway f.path fs × IsDistinct fs

abbrev pub bytes_of : Option (List ℕ) → List ℕ
bytes_of none = []
bytes_of (some bs) = bs

abbrev pub content : FilePath → Files → List ℕ
content p files = bytes_of (lookup bytes_discrete p files)

-- every file is there with its length
abbrev pub IsMapped : List FileMetadata → Files → Type 0
IsMapped [] files = Unit
IsMapped (f ∷ fs) files =
    (lookup bytes_discrete f.path files ≡ some (content f.path files))
    × (length (content f.path files) ≡ f.length)
    × IsMapped fs files

abbrev pub image : List FileMetadata → Files → List ℕ
image [] files = []
image (f ∷ fs) files = content f.path files ++ image fs files

pub length-image :
    (offset end : ℕ) (fs : List FileMetadata) (files : Files)
    → IsLaid offset fs end
    → IsMapped fs files
    → offset + length (image fs files) ≡ end
length-image offset end [] files l m = omega arith
length-image offset end (f ∷ fs) files l m = omega (
  arith,
  length-image (offset + f.length) end fs files l.1 m.2,
  length-append (content f.path files) (image fs files),
  m.1,
)

pub IsLaid-le : (offset end : ℕ) (fs : List FileMetadata) → IsLaid offset fs end → offset ≤ end
IsLaid-le offset end [] l = omega arith
IsLaid-le offset end (f ∷ fs) l = omega (arith, IsLaid-le (offset + f.length) end fs l.1)

module _ (p : FilePath) (bs : List ℕ) (files : Files) where
  pub lookup-insert_away :
      (q : FilePath)
      → p ≢ q
      → lookup bytes_discrete q (insert bytes_discrete p bs files) ≡ lookup bytes_discrete q files
  lookup-insert_away q ne =
      lookup-insert bytes_discrete p q bs files
      ∙ if_neg (bytes_discrete p q) ne (some bs) (lookup bytes_discrete q files)

  pub lookup-insert_self : lookup bytes_discrete p (insert bytes_discrete p bs files) ≡ some bs
  lookup-insert_self =
      lookup-insert bytes_discrete p p bs files
      ∙ if_pos (bytes_discrete p p) refl (some bs) (lookup bytes_discrete p files)

  pub IsMapped-insert :
      (fs : List FileMetadata)
      → IsAway p fs
      → IsMapped fs files
      → IsMapped fs (insert bytes_discrete p bs files)
  IsMapped-insert [] a m = tt
  IsMapped-insert (f ∷ fs) a m =
      rw (lookup-insert_away f.path a.0) (m.0, m.1, IsMapped-insert fs a.1 m.2)

  pub image-insert :
      (fs : List FileMetadata)
      → IsAway p fs
      → image fs (insert bytes_discrete p bs files) ≡ image fs files
  image-insert [] a = refl
  image-insert (f ∷ fs) a =
      ap₂ (λ x y. bytes_of x ++ y) (lookup-insert_away f.path a.0) (image-insert fs a.1)
