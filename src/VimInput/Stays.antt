-- ===== src/VimInput/Stays.antt =====
-- The keys of the normal mode leave the text as it is.
use vincenzo.Prelude.{
  ℕ, zero, suc, ◌+◌, ◌-◌, ◌^◌, ◌%◌, ◌/◌, ◌<◌, ◌≡◌, refl, ap, Bool, true, false, Option, some, List,
  [], ◌∷◌, length, get_elem?, ltb, ltb→lt, Bool-cases, inl, inr, min, if◌then◌else◌, arith,
}
use vincenzo.Outcome.{Outcome, ok}
use vincenzo.VimInput.State.{Mode, Key, Input, Transition}
use vincenzo.VimInput.Editing.{VimInput, adjust_scroll_offset}
use vincenzo.VimInput.Lines.{elem_at}
use vincenzo.VimInput.Moves.{
  at, settle, byte_len, left_scan, right_scan, clamp, left_in, left_at, up_at, down_in, to_line,
  cut_to, move_cursor_left, move_cursor_right, move_cursor_up, move_cursor_down, scroll_up,
  scroll_down, scroll_down_in,
}
use vincenzo.VimInput.Keys.{then_, to_last, no_input, normal_char, normal_key, handle_normal_mode}

-- The call returns, with the same lines and the cursor on one of them.
pub record Stays (lines : List (List ℕ)) (r : Outcome VimInput) : Type 0 where
  pub after : VimInput
  pub returns : r ≡ ok after
  pub same_lines : after.lines ≡ lines
  pub on_line : after.cursor.row < length lines

pub record StaysWith (lines : List (List ℕ)) (r : Outcome (Transition × VimInput)) : Type 0 where
  pub transition : Transition
  pub after : VimInput
  pub returns : r ≡ ok (transition, after)
  pub same_lines : after.lines ≡ lines
  pub on_line : after.cursor.row < length lines

either_way : {A : Type 0} (P : A → Type 0) (c : Bool) {x y : A} → P x → P y → P (if c then x else y)
either_way P true p q = p
either_way P false p q = q

settle-Stays : (e : VimInput) → e.cursor.row < length e.lines → Stays e.lines (settle e)
unfolding adjust_scroll_offset
settle-Stays e h = record {
  after = adjust_scroll_offset e;
  returns = refl;
  same_lines = refl;
  on_line = h;
}

ok-Stays : (e : VimInput) → e.cursor.row < length e.lines → Stays e.lines (ok e)
ok-Stays e h = record { after = e; returns = refl; same_lines = refl; on_line = h }

cut_to-Stays :
    (row : ℕ) (e : VimInput)
    → row < length e.lines
    → Stays e.lines (cut_to row e (get_elem? e.lines row))
cut_to-Stays row e h =
    let (line, found) = elem_at row e.lines h in
    rw found (ok-Stays (at row (min e.cursor.col (byte_len line)) e) h)

scroll_up-Stays :
    (n : ℕ) (e : VimInput) → e.cursor.row < length e.lines → Stays e.lines (scroll_up n e)
unfolding scroll_up
scroll_up-Stays n e h =
    let new_scroll = e.scroll_offset - n in
    let row = e.cursor.row - (e.scroll_offset - new_scroll) in
    let scrolled = record e { scroll_offset = new_scroll } in
    either_way (Stays e.lines) (ltb 0 e.cursor.row) (cut_to-Stays row scrolled (omega (arith, h)))
      (ok-Stays scrolled h)

scroll_down-Stays :
    (n : ℕ) (e : VimInput) (lines : List (List ℕ))
    → e.lines ≡ lines
    → e.cursor.row < length e.lines
    → Stays e.lines (scroll_down_in n e lines)
scroll_down-Stays n e [] p h = absurd (omega (arith, h, ap length p))
scroll_down-Stays n e (line ∷ lines) p h =
    let new_scroll = min (e.scroll_offset + n) (length e.lines - e.height) in
    let scroll_amount = (new_scroll + 2 ^ 64 - e.scroll_offset) % 2 ^ 64 in
    let row = min ((e.cursor.row + scroll_amount) % 2 ^ 64) (length lines) in
    let scrolled = record e { scroll_offset = new_scroll } in
    either_way (Stays e.lines) (ltb e.cursor.row (length lines))
      (cut_to-Stays row scrolled (omega (arith, ap length p))) (ok-Stays scrolled h)

module _ (width : ℕ → ℕ) (line_width : List ℕ → ℕ) where
  left_in-Stays :
      (e : VimInput) (o : Option (List ℕ)) (line : List ℕ)
      → o ≡ some line
      → e.cursor.row < length e.lines
      → Stays e.lines (left_in width line_width e o)
  left_in-Stays e o line p h =
      let (found, col) = left_scan width 0 0 line e.cursor.col in
      let e' = at e.cursor.row col e in
      rw p (either_way (Stays e.lines) found (ok-Stays e' h) (settle-Stays e' h))

  left-Stays :
      (row col : ℕ) (e : VimInput)
      → e.cursor.row ≡ row
      → row < length e.lines
      → Stays e.lines (left_at width line_width row col e)
  left-Stays zero zero e p h = settle-Stays e (omega (arith, p))
  left-Stays (suc r) zero e p h =
      let (line, found) = elem_at r e.lines (omega arith) in
      rw found (settle-Stays (at r (line_width line) e) (omega arith))
  left-Stays zero (suc col) e p h =
      let (line, found) = elem_at zero e.lines h in
      left_in-Stays e (get_elem? e.lines zero) line found (omega (arith, p))
  left-Stays (suc r) (suc col) e p h =
      let (line, found) = elem_at (suc r) e.lines h in
      left_in-Stays e (get_elem? e.lines (suc r)) line found (omega (arith, p, h))

  right-Stays :
      (e : VimInput)
      → e.cursor.row < length e.lines
      → Stays e.lines (move_cursor_right width line_width e)
  unfolding move_cursor_right
  right-Stays e h =
      let (line, found) = elem_at e.cursor.row e.lines h in
      rw found (elim (Bool-cases (ltb e.cursor.col (line_width line))) [
        | inl t ↦ rw t (settle-Stays (at e.cursor.row (right_scan width 0 line e.cursor.col) e) h)
        | inr u ↦ elim (Bool-cases (ltb e.cursor.row (length e.lines - 1))) [
          | inl t ↦
              let below = ltb→lt e.cursor.row (length e.lines - 1) t in
              rw (u, t) (settle-Stays (at (e.cursor.row + 1) 0 e) (omega (arith, below)))
          | inr v ↦ rw (u, v) (settle-Stays e h)
        ]
      ])

  to_line-Stays :
      (row : ℕ) (e : VimInput)
      → row < length e.lines
      → Stays e.lines (to_line width line_width row e (get_elem? e.lines row))
  to_line-Stays row e h =
      let (line, found) = elem_at row e.lines h in
      rw found (settle-Stays (at row (clamp e.cursor.col (line_width line)) e) h)

  up-Stays :
      (row : ℕ) (e : VimInput)
      → e.cursor.row ≡ row
      → row < length e.lines
      → Stays e.lines (up_at width line_width row e)
  up-Stays zero e p h = settle-Stays e (omega (arith, p))
  up-Stays (suc r) e p h = to_line-Stays r e (omega arith)

  down-Stays :
      (e : VimInput) (lines : List (List ℕ))
      → e.lines ≡ lines
      → e.cursor.row < length e.lines
      → Stays e.lines (down_in width line_width e lines)
  down-Stays e [] p h = absurd (omega (arith, h, ap length p))
  down-Stays e (line ∷ lines) p h = elim (Bool-cases (ltb e.cursor.row (length lines))) [
    | inl t ↦
        let below = ltb→lt e.cursor.row (length lines) t in
        rw t (to_line-Stays (e.cursor.row + 1) e (omega (arith, below, ap length p)))
    | inr u ↦ rw u (settle-Stays e h)
  ]

with-Stays :
    (t : Transition) (lines : List (List ℕ)) (r : Outcome VimInput)
    → Stays lines r
    → StaysWith lines (then_ t r)
with-Stays t lines r s = record {
  transition = t;
  after = s.after;
  returns = ap (then_ t) s.returns;
  same_lines = s.same_lines;
  on_line = s.on_line;
}

to_last-Stays :
    (e : VimInput)
    → e.cursor.row < length e.lines
    → Stays e.lines (to_last e (get_elem? e.lines (length e.lines - 1)))
to_last-Stays e h =
    let last = length e.lines - 1 in
    let (line, found) = elem_at last e.lines (omega (arith, h)) in
    rw found (settle-Stays (at last (byte_len line) e) (omega (arith, h)))

module _ (width : ℕ → ℕ) (line_width : List ℕ → ℕ) (i : Input) (e : VimInput)
    (h : e.cursor.row < length e.lines) where
  abbrev Kept : Outcome (Transition × VimInput) → Type 0
  Kept = StaysWith e.lines

  abbrev kept : (t : Transition) {r : Outcome VimInput} → Stays e.lines r → Kept (then_ t r)
  kept t {r} s = with-Stays t e.lines r s

  abbrev down : (n : ℕ) → Stays e.lines (scroll_down n e)
  unfolding scroll_down
  down n = scroll_down-Stays n e e.lines refl h

  normal_char-Stays : (c : ℕ) → Kept (normal_char width line_width c i e)
  unfolding move_cursor_left move_cursor_up move_cursor_down
  normal_char-Stays c =
      let stays = Transition.mode Mode.normal in
      let top = record (at 0 0 e) { scroll_offset = 0; pending = no_input } in
      either_way Kept _ (kept (Transition.mode Mode.insert) (ok-Stays e h)) (
        either_way Kept _
          (kept stays (left-Stays width line_width e.cursor.row e.cursor.col e refl h))
          (either_way Kept _ (kept stays (down-Stays width line_width e e.lines refl h)) (
            either_way Kept _ (kept stays (up-Stays width line_width e.cursor.row e refl h)) (
              either_way Kept _ (kept stays (right-Stays width line_width e h)) (
                either_way Kept _ (kept Transition.nop (down 1)) (
                  either_way Kept _ (kept Transition.nop (scroll_up-Stays 1 e h)) (
                    either_way Kept _ (kept Transition.nop (down ((e.height + 1) / 2))) (
                      either_way Kept _
                        (kept Transition.nop (scroll_up-Stays ((e.height + 1) / 2) e h))
                        (either_way Kept _ (kept Transition.nop (down e.height)) (
                          either_way Kept _ (kept Transition.nop (scroll_up-Stays e.height e h)) (
                            either_way Kept _ (kept stays (to_last-Stays e h)) (
                              either_way Kept _ (kept stays (ok-Stays top (omega (arith, h)))) (
                                either_way Kept _ (kept (Transition.pending i) (ok-Stays e h))
                                  (kept Transition.nop (ok-Stays e h)))))))))))))))

  normal_key-Stays : (k : Key) → Kept (normal_key width line_width k i e)
  normal_key-Stays (Key.char c) = normal_char-Stays c
  normal_key-Stays _ = kept Transition.nop (ok-Stays e h)

  -- In the normal mode every key returns where the cursor is on a line: the text is as it was, and the
  -- cursor is on a line again.
  pub handle_normal_mode-Stays : StaysWith e.lines (handle_normal_mode width line_width i e)
  unfolding handle_normal_mode
  handle_normal_mode-Stays = normal_key-Stays i.key
