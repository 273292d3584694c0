-- ===== src/Disk/Parts.antt =====
-- What is hashed of a torrent whose files are all there: the bytes of the piece.
use vincenzo.Prelude.{
  ℕ, ◌+◌, ◌-◌, ◌<◌, ◌≡◌, refl, sym, ◌∙◌, ap, ap₂, subst, true, false, ◌&&◌, List, [], ◌∷◌, ◌++◌,
  length, length-drop, take, drop, ltb, leb, min, ◌==◌, if◌then◌else◌, Bool-cases, inl, inr, leb→le,
  leb→lt, ltb→lt, ltb→le, ==→eq, and→both, and→either, arith,
}
use Prim.Native.Nat.{max}
use vincenzo.Prelude.Slices.{take-append, drop-append, drop_all, take_all, take-nil, drop-nil}
use vincenzo.Outcome.{Outcome, ok}
use vincenzo.Disk.State.{FilePath, Files, FileMetadata}
use vincenzo.Disk.Hashes.{verify_loop, preopen_files}
use vincenzo.Disk.Image.{IsLaid, IsMapped, content, image}

nil_of : (c : List ℕ) → length c ≡ 0 → c ≡ []
nil_of [] h = refl
nil_of (x ∷ xs) h = absurd (omega arith)

module _ (start end : ℕ) where
  -- the bytes from `start` to `end` of what begins at an offset
  abbrev pub part : ℕ → List ℕ → List ℕ
  part offset xs = take (end - max start offset) (drop (start - offset) xs)

  pub part-append :
      (offset : ℕ) (c r : List ℕ)
      → part offset (c ++ r) ≡ part offset c ++ part (offset + length c) r
  part-append offset c r =
      let a : start - offset - length c ≡ start - (offset + length c) = omega arith in
      let b : end - max start offset - (length c - (start - offset))
          ≡ end - max start (offset + length c) =
        omega arith in
      ap (take (end - max start offset)) (drop-append (start - offset) c r)
      ∙ take-append (end - max start offset) (drop (start - offset) c)
          (drop (start - offset - length c) r)
      ∙ rw (length-drop (start - offset) c, a, b)

  -- a file that the piece overlaps
  pub part_read :
      (offset : ℕ) (c : List ℕ)
      → take
          (min
            (min end (offset + length c) - max start offset)
            (length c - (max start offset - offset)))
          (drop (max start offset - offset) c)
        ≡ part offset c
  part_read offset c =
      let e : max start offset - offset ≡ start - offset = omega arith in
      let k : ℕ =
        min (min end (offset + length c) - max start offset) (length c - (start - offset)) in
      rw e (elim (Bool-cases (leb (length c - (start - offset)) (end - max start offset))) [
        | inl le ↦
            take_all k (drop (start - offset) c)
              (omega (arith, leb→le _ _ le, length-drop (start - offset) c))
            ∙ sym (
                take_all (end - max start offset) (drop (start - offset) c)
                  (omega (arith, leb→le _ _ le, length-drop (start - offset) c)))
        | inr gt ↦ ap (λ n. take n (drop (start - offset) c)) (omega (arith, leb→lt _ _ gt))
      ])

  -- a file that it does not overlap
  pub part_away :
      (offset : ℕ) (c : List ℕ)
      → (ltb start (offset + length c) && ltb offset end) ≡ false
      → part offset c ≡ []
  part_away offset c h = elim (Bool-cases (ltb start (offset + length c))) [
    | inl t ↦ let e : end - max start offset ≡ 0 = ground (arith) in rw e
    | inr f ↦
        rw (drop_all (start - offset) c (omega (arith, ltb→le _ _ f)))
          (take-nil (end - max start offset))
  ]

  pub part_nil : (offset : ℕ) → part offset [] ≡ []
  part_nil offset = rw (drop-nil (start - offset), take-nil (end - max start offset))

  part_done : (offset : ℕ) (xs : List ℕ) → end - max start offset ≡ 0 → part offset xs ≡ []
  part_done offset xs h = rw h

  -- the loop may stop where no byte of the piece is left
  stop_early :
      (left offset : ℕ) (xs : List ℕ) {rest : List ℕ}
      → left ≡ end - max start offset
      → rest ≡ part offset xs
      → (if left == 0 then [] else rest) ≡ part offset xs
  stop_early left offset xs e h = elim (Bool-cases (left == 0)) [
    | inl t ↦ rw t (sym (part_done offset xs (sym e ∙ ==→eq left 0 t)))
    | inr f ↦ rw f h
  ]

  no_loss :
      (offset n : ℕ)
      → (ltb start (offset + n) && ltb offset end) ≡ false
      → end - max start offset ≡ end - max start (offset + n)
  no_loss offset n h = elim (and→either (ltb start (offset + n)) (ltb offset end) h) [
    | inl a ↦ omega (arith, ltb→le start (offset + n) a)
    | inr b ↦ omega (arith, ltb→le offset end b)
  ]

  module _ (f : FileMetadata) (c xs : List ℕ) (ms : List (FileMetadata × List ℕ)) where
    -- an empty file within the piece is passed over
    verify_overlap :
        length c ≡ f.length
        → start < f.start_offset + f.length
        → f.start_offset < end
        → (ltb start (f.start_offset + f.length) && ltb f.start_offset end) ≡ true
        → verify_loop start end (end - max start (f.start_offset + f.length)) ms
          ≡ part (f.start_offset + f.length) xs
        → verify_loop start end (end - max start f.start_offset) ((f, c) ∷ ms)
          ≡ part f.start_offset (c ++ xs)
    unfolding verify_loop
    verify_overlap e before after t ih =
        elim (Bool-cases (leb (length c) (max start f.start_offset - f.start_offset))) [
          | inl s ↦
              let none : length c ≡ 0 = omega (arith, leb→le _ _ s) in
              let same : f.start_offset + f.length ≡ f.start_offset = omega arith in
              rw (t, s, nil_of c none) (rw same at ih)
          | inr s ↦
              let left : end
                    - max start f.start_offset
                    - (min end (f.start_offset + f.length) - max start f.start_offset)
                  ≡ end - max start (f.start_offset + f.length) =
                omega arith in
              rw (t, s)
                (ap₂ (λ x y. x ++ y)
                    (ap
                        (λ n.
                          take
                            (min (min end (f.start_offset + n) - max start f.start_offset)
                              (length c - (max start f.start_offset - f.start_offset)))
                            (drop (max start f.start_offset - f.start_offset) c))
                        (sym e)
                      ∙ part_read f.start_offset c)
                    (rw left (stop_early _ (f.start_offset + f.length) xs refl ih))
                  ∙ ap (λ n. part f.start_offset c ++ part (f.start_offset + n) xs) (sym e)
                  ∙ sym (part-append f.start_offset c xs))
        ]

  verify_file :
      (f : FileMetadata) (c xs : List ℕ) (ms : List (FileMetadata × List ℕ))
      → length c ≡ f.length
      → verify_loop start end (end - max start (f.start_offset + f.length)) ms
        ≡ part (f.start_offset + f.length) xs
      → verify_loop start end (end - max start f.start_offset) ((f, c) ∷ ms)
        ≡ part f.start_offset (c ++ xs)
  unfolding verify_loop
  verify_file f c xs ms e ih =
      elim (Bool-cases (ltb start (f.start_offset + f.length) && ltb f.start_offset end)) [
        | inl t ↦
            let both =
              and→both (ltb start (f.start_offset + f.length)) (ltb f.start_offset end) t in
            verify_overlap f c xs ms e (ltb→lt start (f.start_offset + f.length) both.0)
              (ltb→lt f.start_offset end both.1) t ih
        | inr n ↦
            let stays = no_loss f.start_offset f.length n in
            let first : verify_loop start end (end - max start f.start_offset) ((f, c) ∷ ms)
                ≡ part (f.start_offset + f.length) xs =
              rw (n, stays) (stop_early _ (f.start_offset + f.length) xs refl ih) in
            first
            ∙ ap (λ k. part (f.start_offset + k) xs) (sym e)
            ∙ ap (λ x. x ++ part (f.start_offset + length c) xs)
                (sym (part_away f.start_offset c (rw e n)))
            ∙ sym (part-append f.start_offset c xs)
      ]

module _ (files : Files) where
  abbrev pub opened : List FileMetadata → List (FileMetadata × List ℕ)
  opened [] = []
  opened (f ∷ fs) = (f, content f.path files) ∷ opened fs

  pub verify_loop-part :
      (total start end offset : ℕ) (fs : List FileMetadata)
      → IsLaid offset fs total
      → IsMapped fs files
      → verify_loop start end (end - max start offset) (opened fs)
        ≡ part start end offset (image fs files)
  unfolding verify_loop
  verify_loop-part total start end offset [] l m =
      rw (drop-nil (start - offset), take-nil (end - max start offset))
  verify_loop-part total start end offset (f ∷ fs) l m =
      subst
        (λ o.
          verify_loop start end (end - max start o) (opened (f ∷ fs))
          ≡ part start end o (image (f ∷ fs) files))
        l.0
        (verify_file start end f (content f.path files) (image fs files) (opened fs) m.1
          (verify_loop-part total start end (f.start_offset + f.length) fs (rw l.0 l.1) m.2))

  pub preopen_files-opened :
      (missing : FilePath → Outcome (List ℕ)) (fs : List FileMetadata)
      → IsMapped fs files
      → preopen_files missing fs files ≡ ok (opened fs, false)
  unfolding preopen_files
  preopen_files-opened missing [] m = refl
  preopen_files-opened missing (f ∷ fs) m = rw (m.0, preopen_files-opened missing fs m.2)
