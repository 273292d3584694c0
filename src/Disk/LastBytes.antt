-- ===== src/Disk/LastBytes.antt =====
-- `validate_piece` counts to the last byte of a piece and of a file where `verify_piece` counts to the
-- byte behind: of a torrent without empty files both hash the same bytes.
use vincenzo.Prelude.{
  ℕ, ◌+◌, ◌-◌, ◌^◌, ◌%◌, ◌≤◌, ◌<◌, ◌≡◌, sym, ◌∙◌, ap, ap₂, subst, ◌&&◌, List, [], ◌∷◌, ◌++◌, length,
  take, drop, All, ltb, leb, min, Bool-cases, inl, inr, le→leb, lt→ltb, ltb→lt, and→both, arith,
}
use Prim.Native.Nat.{max}
use vincenzo.Outcome.{Outcome, ok}
use vincenzo.Disk.State.{FilePath, Files, FileMetadata}
use vincenzo.Disk.Hashes.{validate_loop}
use vincenzo.Disk.Image.{IsLaid, IsMapped, IsLaid-le, content, image}
use vincenzo.Disk.Parts.{part, part-append, part_read, part_away, part_nil}

abbrev pub HasBytes : List FileMetadata → Type 0
HasBytes fs = All (λ f. 0 < f.length) fs

module _ (missing : FilePath → Outcome (List ℕ)) (files : Files) (start end total : ℕ)
    (ends : end ≤ total) (some_bytes : start < end) (fits : total < 2 ^ 64) where
  abbrev last_of : FileMetadata → ℕ
  last_of f = (f.start_offset + f.length + (2 ^ 64 - 1)) % 2 ^ 64

  -- the test of `validate_piece` is that of `verify_piece`
  same_test :
      (f : FileMetadata)
      → 0 < f.length
      → f.start_offset + f.length ≤ total
      → (leb start (last_of f) && leb f.start_offset (end - 1))
        ≡ (ltb start (f.start_offset + f.length) && ltb f.start_offset end)
  same_test f p h =
      let e : last_of f ≡ f.start_offset + f.length - 1 = omega arith in rw e (ground arith)

  -- and so is the number of bytes
  same_len :
      (f : FileMetadata)
      → 0 < f.length
      → f.start_offset + f.length ≤ total
      → start < f.start_offset + f.length
      → f.start_offset < end
      → ((min (end - 1) (last_of f) + 2 ^ 64 - f.start_offset) % 2 ^ 64
            + 2 ^ 64
            - (max start f.start_offset - f.start_offset)
            + 1)
          % 2 ^ 64
        ≡ min end (f.start_offset + f.length) - max start f.start_offset
  same_len f p h a b = omega arith

  module _ (f : FileMetadata) (fs : List FileMetadata) (xs : List ℕ) where
    validate_overlap :
        IsMapped (f ∷ fs) files
        → 0 < f.length
        → f.start_offset + f.length ≤ total
        → start < f.start_offset + f.length
        → f.start_offset < end
        → validate_loop missing start (end - 1) fs files
          ≡ ok (part start end (f.start_offset + f.length) xs)
        → validate_loop missing start (end - 1) (f ∷ fs) files
          ≡ ok (part start end f.start_offset (content f.path files ++ xs))
    unfolding validate_loop
    validate_overlap m p h a b ih =
        let c = content f.path files in
        let test =
          same_test f p h
          ∙ ap₂ (λ x y. x && y) (lt→ltb start (f.start_offset + f.length) a)
              (lt→ltb f.start_offset end b) in
        let inside : max start f.start_offset
              - f.start_offset
              + (min end (f.start_offset + f.length) - max start f.start_offset)
            ≤ length c =
          omega (arith, m.1) in
        let whole : take
              (min (min end (f.start_offset + length c) - max start f.start_offset)
                (length c - (max start f.start_offset - f.start_offset)))
              (drop (max start f.start_offset - f.start_offset) c)
            ≡ take (min end (f.start_offset + f.length) - max start f.start_offset)
                (drop (max start f.start_offset - f.start_offset) c) =
          ap (λ k. take k (drop (max start f.start_offset - f.start_offset) c))
            (omega (arith, m.1)) in
        rw (test, m.0, ih, same_len f p h a b, le→leb _ _ inside)
          (ap ok (
            ap₂ (λ x y. x ++ y) (sym whole ∙ part_read start end f.start_offset c)
              (ap (λ k. part start end (f.start_offset + k) xs) (sym m.1))
            ∙ sym (part-append start end f.start_offset c xs)))

    validate_file :
        IsMapped (f ∷ fs) files
        → 0 < f.length
        → f.start_offset + f.length ≤ total
        → validate_loop missing start (end - 1) fs files
          ≡ ok (part start end (f.start_offset + f.length) xs)
        → validate_loop missing start (end - 1) (f ∷ fs) files
          ≡ ok (part start end f.start_offset (content f.path files ++ xs))
    unfolding validate_loop
    validate_file m p h ih =
        elim (Bool-cases (ltb start (f.start_offset + f.length) && ltb f.start_offset end)) [
          | inl t ↦
              let both =
                and→both (ltb start (f.start_offset + f.length)) (ltb f.start_offset end) t in
              validate_overlap m p h (ltb→lt start (f.start_offset + f.length) both.0)
                (ltb→lt f.start_offset end both.1) ih
          | inr n ↦ rw (same_test f p h ∙ n) (
              ih
              ∙ ap ok (
                  ap (λ k. part start end (f.start_offset + k) xs) (sym m.1)
                  ∙ ap
                      (λ x. x ++ part start end (f.start_offset + length (content f.path files)) xs)
                      (sym (part_away start end f.start_offset (content f.path files) (rw m.1 n)))
                  ∙ sym (part-append start end f.start_offset (content f.path files) xs)))
        ]

  pub validate_loop-part :
      (offset : ℕ) (fs : List FileMetadata)
      → HasBytes fs
      → IsLaid offset fs total
      → IsMapped fs files
      → validate_loop missing start (end - 1) fs files ≡ ok (part start end offset (image fs files))
  unfolding validate_loop
  validate_loop-part offset [] p l m = ap ok (sym (part_nil start end offset))
  validate_loop-part offset (f ∷ fs) p l m =
      subst
        (λ o.
          validate_loop missing start (end - 1) (f ∷ fs) files
          ≡ ok (part start end o (image (f ∷ fs) files)))
        l.0
        (validate_file f fs (image fs files) m p.0
          (omega (arith, IsLaid-le (offset + f.length) total fs l.1))
          (validate_loop-part (f.start_offset + f.length) fs p.1 (rw l.0 l.1) m.2))
