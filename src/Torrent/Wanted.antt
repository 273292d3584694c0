-- ===== src/Torrent/Wanted.antt =====
-- Which pieces are asked of a peer: `gen_missing_pieces` and `get_want_pieces` of
-- crates/vcz-lib/src/torrent/mod.rs, on the bitfields of one peer.
use vincenzo.Prelude.{ℕ, ◌+◌, Bool, true, false, List, [], ◌∷◌, ◌==◌, if◌then◌else◌}
use vincenzo.Outcome.{Outcome, ok, err, panic}
use vincenzo.Torrent.Bits.{Bits, safe_get}

module _ (o : Bits) where
  -- the pieces that the peer has and the client has not
  unfoldable pub missing : List Bool → List Bool → Outcome (List Bool)
  missing remote bitfield = o.and remote (o.negate bitfield)

  abbrev pub with_piece : ℕ → Outcome (List ℕ × List Bool) → Outcome (List ℕ × List Bool)
  with_piece piece (ok (pieces, req)) = ok (piece ∷ pieces, req)
  with_piece piece (err e) = err e
  with_piece piece panic = panic

  -- One bit that is set: passed over if it is asked for already, and else asked for, which ends the
  -- loop where enough are found. `skip` and `go` are what the loop makes of the bits behind it.
  abbrev pub want_one :
      ℕ
      → ℕ
      → ℕ
      → Bool
      → Outcome (List Bool)
      → Outcome (List ℕ × List Bool)
      → (List Bool → Outcome (List ℕ × List Bool))
      → Outcome (List ℕ × List Bool)
  want_one wanted found piece true set skip go = skip
  want_one wanted found piece false (ok asked) skip go =
      if found + 1 == wanted then ok (piece ∷ [], asked) else with_piece piece (go asked)
  want_one wanted found piece false (err e) skip go = err e
  want_one wanted found piece false panic skip go = panic

  -- The loop over the bits of `diff`, whose next has number `piece`: the pieces that are taken,
  -- `found` of them before, and the pieces that are asked for by then.
  unfoldable pub want_loop : ℕ → ℕ → ℕ → List Bool → List Bool → Outcome (List ℕ × List Bool)
  want_loop wanted found piece [] req = ok ([], req)
  want_loop wanted found piece (false ∷ diff) req = want_loop wanted found (piece + 1) diff req
  want_loop wanted found piece (true ∷ diff) req =
      let got = safe_get o piece req in
      want_one wanted found piece got.0 (o.set piece true got.1)
        (want_loop wanted found (piece + 1) diff got.1)
        (λ asked. want_loop wanted (found + 1) (piece + 1) diff asked)

  unfoldable pub get_want_pieces : ℕ → List Bool → List Bool → Outcome (List ℕ × List Bool)
  unfolding want_loop
  get_want_pieces pieces_wanted diff req = want_loop pieces_wanted 0 0 diff req
