-- ===== src/Curses.antt =====
-- src/components/acomms/chat/chat_curses.cpp and .h: the chat's terminal window.
--
-- The record `ChatCurses` holds the class's fields and what its windows show: `upper` is the list
-- of lines written to the upper window, `lower` the text of the lower one. Refreshes are left out.
-- A key of `getch` is a byte, one of the named function keys, whose codes lie above the bytes, or
-- the code that says that no key came in time. `isprint` is that of the C locale.
pub mod Windows
pub mod Typing
pub mod Screen
pub mod Editor
use goby3_examples.Base.{
  ℕ, zero, suc, ◌+◌, ◌*◌, ◌/◌, ◌%◌, Bool, true, false, ◌&&◌, not, List, [], ◌∷◌, ◌++◌, length, init,
  ltb, leb, ◌==◌, if◌then◌else◌,
}
use goby3_examples.Base.Int.{◌==ℤ◌, ℤ, pos, negsuc, ◌-ℤ◌, neg_ℤ}
use goby3_examples.Base.Text.{Text, codes, to_string}

pub data Key : Type 0 where
  char : ℕ → Key
  delete_char backspace enter resize no_key : Key

-- `newwin(nlines, ncols, begin_y, 0)`.
pub record Window : Type 0 where
  pub nlines : ℤ
  pub ncols : ℕ
  pub begin_y : ℤ

pub record ChatCurses : Type 0 where
  pub xmax : ℕ
  pub ymax : ℕ
  pub id : ℕ  -- unsigned
  pub upper_win : Window
  pub divider_win : Window
  pub lower_win : Window
  pub upper : List Text
  pub lower : Text
  pub line_buffer : Text

abbrev pub max_line : ℕ
max_line = 26

-- A number of quarters cut to an int: a product with `UPPER_WIN_FRAC` or `LOWER_WIN_FRAC` is an
-- exact float on any screen.
pub quarters : ℤ → ℤ
quarters (pos n) = pos (n / 4)
quarters (negsuc n) = neg_ℤ (pos (suc n / 4))

-- The curses call on a screen of that many lines: a window of no lines goes down to the bottom.
pub newwin : ℕ → ℤ → ℕ → ℤ → Window
newwin y nlines ncols begin_y = record {
  nlines = if nlines ==ℤ pos 0 then pos y -ℤ begin_y else nlines;
  ncols = ncols;
  begin_y = begin_y;
}

-- The size is what `getmaxyx` gives. New windows are empty.
unfoldable pub update_size : ℕ → ℕ → ChatCurses → ChatCurses
unfolding quarters newwin
update_size y x c =
    let split = quarters (pos (y * 3) -ℤ pos 4) in
    record c {
      ymax = y;
      xmax = x;
      upper_win = newwin y split x (pos 0);
      divider_win = newwin y (pos 1) x split;
      lower_win = newwin y (quarters (pos y)) x (quarters (pos (y * 3)));
      upper = [];
      lower = [];
    }

unfoldable pub set_modem_id : ℕ → ChatCurses → ChatCurses
set_modem_id id c = record c { id = id }

-- `startup` sets the terminal up and makes the windows.
unfoldable pub startup : ℕ → ℕ → ChatCurses → ChatCurses
startup y x c = update_size y x c

-- The one-argument `post_message`.
unfoldable pub post_line : Text → ChatCurses → ChatCurses
post_line line c = record c { upper = c.upper ++ (line ++ b'\n' ∷ []) ∷ [] }

unfoldable pub post_message : ℕ → Text → ChatCurses → ChatCurses
post_message id line c = post_line (codes "[" ++ to_string id ++ codes "]: " ++ line) c

unfoldable pub isprint : ℕ → Bool
isprint k = leb 32 k && leb k 126

abbrev pub is_empty : Text → Bool
is_empty [] = true
is_empty (c ∷ s) = false

-- The branch of `run_input` for a line that is complete.
unfoldable pub send_line : ChatCurses → ChatCurses × Text
send_line c = (
  record (post_message c.id c.line_buffer (record c { lower = [] })) { line_buffer = [] },
  c.line_buffer,
)

pub erase_last : ChatCurses → ChatCurses × Text
erase_last c =
    let rest = if is_empty c.line_buffer then [] else init c.line_buffer in
    (record c { line_buffer = rest; lower = rest }, [])

-- The branch for a byte that ends no line.
unfoldable pub type_char : ℕ → ChatCurses → ChatCurses × Text
type_char k c =
    if isprint k && ltb (length c.line_buffer) max_line
    then (record c { lower = c.lower ++ k ∷ []; line_buffer = c.line_buffer ++ k ∷ [] }, [])
    else (c, [])

-- `run_input` on a key, with the screen's size for a resize. The second part is what it leaves in
-- `line`, which the caller hands over empty.
unfoldable pub run_input : Key → ℕ → ℕ → ChatCurses → ChatCurses × Text
unfolding send_line erase_last type_char
run_input delete_char y x c = erase_last c
run_input backspace y x c = erase_last c
run_input enter y x c = if is_empty c.line_buffer then (c, []) else send_line c
run_input resize y x c = (update_size y x c, [])
run_input (char k) y x c =
    if (k == b'\n') && not (is_empty c.line_buffer) then send_line c else type_char k c
run_input no_key y x c = (c, [])
