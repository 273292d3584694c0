-- ===== src/Bytes/Utf8.antt =====
-- `String::from_utf8` of std: a string is its bytes, and the bytes are those of some text.
use vincenzo.Prelude.{ℕ, Bool, true, false, ◌&&◌, List, [], ◌∷◌, ltb, leb, ◌==◌, if◌then◌else◌}
use vincenzo.Outcome.{Outcome, ok, err, utf8}

abbrev between : ℕ → ℕ → ℕ → Bool
between lo hi b = leb lo b && leb b hi

-- The bytes that may follow a first byte, and how many: the second has a range of its own, which
-- keeps out overlong forms and surrogates.
abbrev more : ℕ → List (ℕ × ℕ)
more b =
    if between 194 223 b
    then (128, 191) ∷ []
    else if leb b 224
    then (160, 191) ∷ (128, 191) ∷ []
    else if b == 237
    then (128, 159) ∷ (128, 191) ∷ []
    else if leb b 239
    then (128, 191) ∷ (128, 191) ∷ []
    else if b == 240
    then (144, 191) ∷ (128, 191) ∷ (128, 191) ∷ []
    else if leb b 243
    then (128, 191) ∷ (128, 191) ∷ (128, 191) ∷ []
    else (128, 143) ∷ (128, 191) ∷ (128, 191) ∷ []

-- `pending` holds the ranges of the bytes that the current character still needs
unfoldable pub is_utf8 : List (ℕ × ℕ) → List ℕ → Bool
is_utf8 [] [] = true
is_utf8 (r ∷ pending) [] = false
is_utf8 (r ∷ pending) (b ∷ bs) = between r.0 r.1 b && is_utf8 pending bs
is_utf8 [] (b ∷ bs) =
    if ltb b 128 then is_utf8 [] bs else (between 194 244 b && is_utf8 (more b) bs)

unfoldable pub from_utf8 : List ℕ → Outcome (List ℕ)
unfolding is_utf8
from_utf8 bs = if is_utf8 [] bs then ok bs else err utf8
