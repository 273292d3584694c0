-- ===== src/Disk/Write.antt =====
-- Writing a block: `calculate_write_ops_for_block` and the loop of `write_block` over what it returns
-- (crates/vcz-lib/src/disk.rs). `missing` is what opening a file gives that is not mapped yet.
use vincenzo.Prelude.{
  ℕ, ◌+◌, ◌-◌, ◌*◌, Option, none, some, List, [], ◌∷◌, length, take, drop, leb, min, ◌&&◌,
  if◌then◌else◌,
}
use Prim.Native.Nat.{max}
use vincenzo.Prelude.HashMap.{lookup, insert}
use vincenzo.Prelude.Keys.{bytes_discrete}
use vincenzo.Prelude.Slices.{overwrite}
use vincenzo.Outcome.{Outcome, ok, err, panic}
use vincenzo.Wire.Message.{BlockInfo}
use vincenzo.Disk.State.{FilePath, Files, FileMetadata, TorrentCache}

-- the path, where in the file, and the range of the block
pub record WriteOp : Type 0 where
  pub path : FilePath
  pub file_offset : ℕ
  pub from : ℕ
  pub to : ℕ

-- the loop over the files, of a block from `block_start` to `block_end`
unfoldable pub ops_loop : ℕ → ℕ → List FileMetadata → List WriteOp
ops_loop block_start block_end [] = []
ops_loop block_start block_end (f ∷ fs) =
    let file_end = f.start_offset + f.length in
    let overlap_start = max block_start f.start_offset in
    let overlap_end = min block_end file_end in
    let rest = ops_loop block_start block_end fs in
    if leb overlap_end overlap_start
    then rest
    else record {
      path = f.path;
      file_offset = overlap_start - f.start_offset;
      from = overlap_start - block_start;
      to = overlap_end - block_start;
    }
      ∷ rest

unfoldable pub calculate_write_ops_for_block : TorrentCache → BlockInfo → List WriteOp
unfolding ops_loop
calculate_write_ops_for_block c b =
    let block_start = b.index * c.piece_length + b.begin in
    ops_loop block_start (min (block_start + b.len) c.total_size) c.file_metadata

-- `get_cached_read_mmap` and `get_cached_write_mmap`
abbrev pub get_map : (FilePath → Outcome (List ℕ)) → FilePath → Option (List ℕ) → Outcome (List ℕ)
get_map missing path none = missing path
get_map missing path (some bs) = ok bs

-- One copy into a mapped file. Both ranges are checked before a byte is written.
abbrev pub copy_into :
    WriteOp
    → List ℕ
    → Files
    → Outcome (List ℕ)
    → (Files → Outcome (Unit {0}) × Files)
    → Outcome (Unit {0}) × Files
copy_into op block files (err e) go = (err e, files)
copy_into op block files panic go = (panic, files)
copy_into op block files (ok bs) go =
    if leb (op.file_offset + (op.to - op.from)) (length bs) && leb op.to (length block)
    then go (
        insert bytes_discrete op.path
          (overwrite op.file_offset (take (op.to - op.from) (drop op.from block)) bs) files)
    else (panic, files)

module _ (missing : FilePath → Outcome (List ℕ)) where
  unfoldable pub apply_ops : List WriteOp → List ℕ → Files → Outcome (Unit {0}) × Files
  apply_ops [] block files = (ok tt, files)
  apply_ops (op ∷ ops) block files =
      copy_into op block files (get_map missing op.path (lookup bytes_discrete op.path files))
        (λ files'. apply_ops ops block files')
