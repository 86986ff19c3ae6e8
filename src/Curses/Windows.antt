-- ===== src/Curses/Windows.antt =====
-- How `update_size` divides the screen.
use goby3_examples.Base.{ℕ, ◌≤◌, ◌≡◌, arith}
use goby3_examples.Base.Int.{pos, ◌+ℤ◌, ◌-ℤ◌, ◌≤ℤ◌, neg_ℤ}
use goby3_examples.Curses.{ChatCurses, update_size}

-- On a screen of three lines or more the windows have a line or more each, follow one another with no gap, the last one ends
-- on the screen, and it leaves at most one line of it unused.
pub update_size_tiles :
    (y x : ℕ) (c : ChatCurses)
    → 3 ≤ y
    → let d = update_size y x c in
      (pos 1 ≤ℤ d.upper_win.nlines)
      × (pos 1 ≤ℤ d.lower_win.nlines)
      × (d.upper_win.begin_y +ℤ d.upper_win.nlines ≡ d.divider_win.begin_y)
      × (d.divider_win.begin_y +ℤ d.divider_win.nlines ≡ d.lower_win.begin_y)
      × (d.lower_win.begin_y +ℤ d.lower_win.nlines ≤ℤ pos y)
      × (pos y ≤ℤ d.lower_win.begin_y +ℤ d.lower_win.nlines +ℤ pos 1)
unfolding update_size ◌+ℤ◌ ◌-ℤ◌ neg_ℤ
update_size_tiles y x c h =
    (ground arith, ground arith, ground arith, ground arith, ground arith, ground arith)
