-- ===== src/Torrent/Choice.antt =====
-- Which pieces `get_want_pieces` chooses, and which `gen_missing_pieces` finds.
use vincenzo.Prelude.{
  ℕ, suc, ◌+◌, ◌-◌, ◌≤◌, ◌<◌, ◌≡◌, refl, sym, ◌∙◌, subst, Bool, true, false, not, List, [], ◌∷◌,
  length, map, All, ◌==◌, ==_refl, Bool-cases, inl, inr, arith, lt→ltb,
}
use vincenzo.Outcome.{Outcome, ok, err, panic}
use vincenzo.Torrent.Bits.{Bits, IsBits, plain, eq-plain, safe_get, reach, bit_at, put, both}
use vincenzo.Torrent.BitLaws.{
  bit_at-reach, reach_holds, bit_at-put, bit_at-put_same, bit_at-put_other, both-bits, not-length,
}
use vincenzo.Torrent.Wanted.{missing, with_piece, want_loop, get_want_pieces}

-- What a result must be, for the bits from number `from` on: every piece is one that the peer has
-- and nobody was asked for, it is asked for now, what was asked for still is, and at most `room`
-- pieces are taken.
abbrev pub Wants : ℕ → ℕ → List Bool → List Bool → Outcome (List ℕ × List Bool) → Type 0
Wants room from diff req (ok (pieces, asked)) =
    All
      (λ p.
        (from ≤ p)
        × (bit_at (p - from) diff ≡ true)
        × (bit_at p req ≡ false)
        × (bit_at p asked ≡ true))
      pieces
    × ((p : ℕ) → bit_at p req ≡ true → bit_at p asked ≡ true)
    × (length pieces ≤ room)
Wants room from diff req _ = ⊥

-- `asked` asks for at least what `req` does, and for nothing else from number `from` on
abbrev Extends : ℕ → List Bool → List Bool → Type 0
Extends from req asked =
    ((p : ℕ) → bit_at p req ≡ true → bit_at p asked ≡ true)
    × ((p : ℕ) → from < p → bit_at p asked ≡ bit_at p req)

bit_at-shift :
    (from p : ℕ) (b : Bool) (diff : List Bool)
    → from + 1 ≤ p
    → bit_at (p - from) (b ∷ diff) ≡ bit_at (p - (from + 1)) diff
bit_at-shift from p b diff h = let e : p - from ≡ suc (p - (from + 1)) = omega arith in rw e refl

abbrev Taken : ℕ → List Bool → List Bool → List Bool → ℕ → Type 0
Taken from diff req asked p =
    (from ≤ p) × (bit_at (p - from) diff ≡ true) × (bit_at p req ≡ false) × (bit_at p asked ≡ true)

Taken-shift :
    (from : ℕ) (b : Bool) (diff req mid asked : List Bool) (pieces : List ℕ)
    → Extends from req mid
    → All (Taken (from + 1) diff mid asked) pieces
    → All (Taken from (b ∷ diff) req asked) pieces
Taken-shift from b diff req mid asked [] x a = tt
Taken-shift from b diff req mid asked (p ∷ ps) x a = (
  (
    omega (arith, a.0.0),
    bit_at-shift from p b diff a.0.0 ∙ a.0.1,
    sym (x.1 p (omega (arith, a.0.0))) ∙ a.0.2,
    a.0.3,
  ),
  Taken-shift from b diff req mid asked ps x a.1,
)

skipped :
    (room from : ℕ) (b : Bool) (diff req mid : List Bool) (r : Outcome (List ℕ × List Bool))
    → Extends from req mid
    → Wants room (from + 1) diff mid r
    → Wants room from (b ∷ diff) req r
skipped room from b diff req mid (ok (pieces, asked)) x w =
    (Taken-shift from b diff req mid asked pieces x w.0, λ p h. w.1 p (x.0 p h), w.2)
skipped room from b diff req mid (err e) x w = absurd w
skipped room from b diff req mid panic x w = absurd w

taken :
    (room from : ℕ) (diff req mid : List Bool) (r : Outcome (List ℕ × List Bool))
    → Extends from req mid
    → bit_at from req ≡ false
    → bit_at from mid ≡ true
    → Wants room (from + 1) diff mid r
    → Wants (suc room) from (true ∷ diff) req (with_piece plain from r)
taken room from diff req mid (ok (pieces, asked)) x n y w =
    let e : from - from ≡ 0 = omega arith in
    (
      (
        (omega arith, rw e refl, n, w.1 from y),
        Taken-shift from true diff req mid asked pieces x w.0,
      ),
      λ p h. w.1 p (x.0 p h),
      omega (arith, w.2),
    )
taken room from diff req mid (err e) x n y w = absurd w
taken room from diff req mid panic x n y w = absurd w

reach-Extends : (from : ℕ) (req : List Bool) → Extends from req (reach plain from req)
reach-Extends from req = (λ p h. bit_at-reach from p req ∙ h, λ p h. bit_at-reach from p req)

put-Extends : (from : ℕ) (req : List Bool) → Extends from req (put from true (reach plain from req))
put-Extends from req = (
  λ p h. bit_at-put from p (reach plain from req) (bit_at-reach from p req ∙ h),
  λ p h. bit_at-put_other from p (reach plain from req) h ∙ bit_at-reach from p req,
)

want_loop-Wants :
    (wanted found from : ℕ) (diff req : List Bool)
    → found < wanted
    → Wants (wanted - found) from diff req (want_loop plain wanted found from diff req)
unfolding want_loop safe_get
want_loop-Wants wanted found from [] req h = (tt, λ p b. b, omega arith)
want_loop-Wants wanted found from (false ∷ diff) req h =
    skipped (wanted - found) from false diff req req _ (λ p b. b, λ p b. refl)
      (want_loop-Wants wanted found (from + 1) diff req h)
want_loop-Wants wanted found from (true ∷ diff) req h =
    let here = reach plain from req in
    let asked = put from true here in
    elim (Bool-cases (bit_at from here)) [
      | inl e ↦ rw e (
          skipped (wanted - found) from true diff req here _ (reach-Extends from req)
            (want_loop-Wants wanted found (from + 1) diff here h))
      | inr e ↦
          let n = sym (bit_at-reach from from req) ∙ e in
          let y = bit_at-put_same from here (reach_holds from req) in
          rw (e, Wants, lt→ltb from (length here) (reach_holds from req))
            (elim (Bool-cases (found + 1 == wanted)) [
              | inl last ↦ rw last (
                  let zero_off : from - from ≡ 0 = omega arith in
                  (
                    ((omega arith, rw zero_off refl, n, y), tt),
                    (put-Extends from req).0,
                    omega arith,
                  ))
              | inr more ↦
                  let room : suc (wanted - (found + 1)) ≡ wanted - found = omega arith in
                  rw more (
                    subst
                      (λ k. Wants k from (true ∷ diff) req (
                        with_piece plain from
                          (want_loop plain wanted (found + 1) (from + 1) diff asked)))
                      room
                      (taken (wanted - (found + 1)) from diff req asked _ (put-Extends from req) n y
                        (want_loop-Wants wanted (found + 1) (from + 1) diff asked (ground arith))))
            ])
    ]

-- Where some pieces are wanted, the call succeeds, with at most so many pieces: each is one that the
-- peer has and that nobody was asked for, it is asked for from then on, and what was asked for
-- before still is.
pub get_want_pieces-Wants :
    (o : Bits) (wanted : ℕ) (diff req : List Bool)
    → IsBits o
    → 0 < wanted
    → Wants wanted 0 diff req (get_want_pieces o wanted diff req)
unfolding get_want_pieces
get_want_pieces-Wants o wanted diff req b h =
    let all : wanted - 0 ≡ wanted = omega arith in
    rw (eq-plain b) (
      subst (λ k. Wants k 0 diff req (want_loop plain wanted 0 0 diff req)) all
        (want_loop-Wants wanted 0 0 diff req h))

-- Of two bitfields of one length, the missing pieces are computed without a panic, and each is one
-- that the peer has and the client has not.
missing-bits :
    (o : Bits) (remote bitfield : List Bool)
    → IsBits o
    → length remote ≡ length bitfield
    → (diff : List Bool) × (missing o remote bitfield ≡ ok diff)
      × ((p : ℕ) → bit_at p diff ≡ true → (bit_at p remote ≡ true) × (bit_at p bitfield ≡ false))
unfolding missing
missing-bits o remote bitfield b h = rw (eq-plain b) (
  both remote (map not bitfield),
  rw (not-length bitfield, h, ==_refl (length bitfield)) refl,
  λ p k. both-bits p remote bitfield k,
)
