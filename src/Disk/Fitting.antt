-- ===== src/Disk/Fitting.antt =====
-- Which pieces of a torrent fit their hashes, as `compute_downloaded_pieces` of crates/vcz-lib/src/disk.rs
-- finds them, and the sizes that it counts.
use vincenzo.Prelude.{
  ℕ, zero, suc, ◌+◌, ◌≤◌, ◌≡◌, refl, ◌∙◌, ap, ap₂, Bool, true, false, List, [], ◌∷◌, ◌++◌, length,
  length-take, length-append, if◌then◌else◌, arith,
}
use vincenzo.Outcome.{Outcome, ok}
use vincenzo.Torrent.Info.{Info, pieces, get_torrent_size}
use vincenzo.Disk.State.{FilePath, Files}
use vincenzo.Disk.Layout.{zeros, cache_of}
use vincenzo.Disk.Hashes.{hash_at}
use vincenzo.Disk.Image.{IsMapped}
use vincenzo.Disk.Parts.{opened}
use vincenzo.Disk.Sizes.{IsWhole, size_of_piece, piece_len-eq-size}
use vincenzo.Prelude.Keys.{same_bytes_sym}
use vincenzo.Disk.Validation.{torrent_bytes, piece_bytes, verify_piece-eq-hash}
use vincenzo.Disk.Arrival.{hash_fits}
use vincenzo.Disk.Resume.{resize, downloaded_sizes, verify_all}

length-zeros : (n : ℕ) → length (zeros n) ≡ n
length-zeros zero = refl
length-zeros (suc n) = ap suc (length-zeros n)

pub length-resize : (n : ℕ) (bs : List ℕ) → length (resize n bs) ≡ n
length-resize n bs =
    length-take n (bs ++ zeros n) (omega (arith, length-append bs (zeros n), length-zeros n))

-- whether the bytes of each piece have its hash, from piece `i` on
abbrev pub fitting : (List ℕ → List ℕ) → Info → List ℕ → ℕ → ℕ → List Bool
fitting sha1 info bs zero i = []
fitting sha1 info bs (suc k) i = hash_fits sha1 info i bs ∷ fitting sha1 info bs k (i + 1)

abbrev pub sizes_of : Info → ℕ → List Bool → List ℕ
sizes_of info i [] = []
sizes_of info i (b ∷ bs) = (if b then size_of_piece info i else 0) ∷ sizes_of info (i + 1) bs

pub length-fitting :
    (sha1 : List ℕ → List ℕ) (info : Info) (bs : List ℕ) (k i : ℕ)
    → length (fitting sha1 info bs k i) ≡ k
length-fitting sha1 info bs zero i = refl
length-fitting sha1 info bs (suc k) i = ap suc (length-fitting sha1 info bs k (i + 1))

pub length-sizes_of :
    (info : Info) (i : ℕ) (bits : List Bool) → length (sizes_of info i bits) ≡ length bits
length-sizes_of info i [] = refl
length-sizes_of info i (b ∷ bs) = ap suc (length-sizes_of info (i + 1) bs)

pub downloaded_sizes-eq :
    (info : Info) (w : IsWhole info) (i : ℕ) (bits : List Bool)
    → i + length bits ≤ pieces info
    → downloaded_sizes info i bits ≡ ok (sizes_of info i bits)
unfolding downloaded_sizes
downloaded_sizes-eq info w i [] h = refl
downloaded_sizes-eq info w i (true ∷ bs) h =
    rw (
      piece_len-eq-size info w i (omega arith),
      downloaded_sizes-eq info w (i + 1) bs (omega arith),
    )
downloaded_sizes-eq info w i (false ∷ bs) h =
    rw (downloaded_sizes-eq info w (i + 1) bs (omega arith))

module _ (sha1 : List ℕ → List ℕ) (missing : FilePath → Outcome (List ℕ)) (download_dir : FilePath)
    (info : Info) (files : Files)
    (m : IsMapped (cache_of download_dir info).file_metadata files) where
  pub verify_all-fitting :
      (k i : ℕ)
      → verify_all sha1 info
          (get_torrent_size info)
          (opened files (cache_of download_dir info).file_metadata)
          k
          i
        ≡ fitting sha1 info (torrent_bytes download_dir info files) k i
  unfolding verify_all
  verify_all-fitting zero i = refl
  verify_all-fitting (suc k) i =
      ap₂ (λ x y. x ∷ y)
        (verify_piece-eq-hash sha1 missing download_dir info files i (hash_at i info.pieces) m
          ∙ same_bytes_sym (sha1 (piece_bytes info i (torrent_bytes download_dir info files)))
              (hash_at i info.pieces))
        (verify_all-fitting k (i + 1))
