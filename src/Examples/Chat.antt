-- ===== src/Examples/Chat.antt =====
-- A chat of modems 1 and 2, on a terminal of 24 lines and 80 columns.
use goby3_examples.Base.{◌≢◌, ◌↔◌, ◌⊎◌, ◌≡◌, refl, true, false, some, none, List, [], ◌∷◌, arith}
use goby3_examples.Base.Int.{pos, negsuc, ◌+ℤ◌, ◌≤ℤ◌}
use goby3_examples.Base.Text.{codes, to_string_ℤ}
use goby3_examples.Curses.{
  ChatCurses, Window, Key, char, enter, resize, run_input, update_size, startup, set_modem_id,
}
use goby3_examples.Curses.Windows.{update_size_tiles}
use goby3_examples.Curses.Screen.{IsShown, run_input-IsShown_iff}
use goby3_examples.Curses.Editor.{Editor, Press, press_all, run_keys, Matches, run_keys-press_all}
use goby3_examples.Chat.{Settings, Chat, Round, read_arguments, mac_config, to_unsigned, start}
use goby3_examples.Chat.Arguments.{read_arguments-to_string}
use goby3_examples.Chat.Slots.{own_slots, mac_config-own_slots}

abbrev pub no_window : Window
no_window = record { nlines = pos 0; ncols = 0; begin_y = pos 0 }

abbrev pub screen : ChatCurses
screen = record {
  xmax = 0;
  ymax = 0;
  id = 0;
  upper_win = no_window;
  divider_win = no_window;
  lower_win = no_window;
  upper = [];
  lower = [];
  line_buffer = [];
}

-- A screen on which "ok" has been typed.
abbrev typing : ChatCurses
typing = record screen { lower = codes "ok"; line_buffer = codes "ok" }

update_size_tiles_example :
    let d = update_size 24 80 screen in
    (pos 1 ≤ℤ d.upper_win.nlines)
    × (pos 1 ≤ℤ d.lower_win.nlines)
    × (d.upper_win.begin_y +ℤ d.upper_win.nlines ≡ d.divider_win.begin_y)
    × (d.divider_win.begin_y +ℤ d.divider_win.nlines ≡ d.lower_win.begin_y)
    × (d.lower_win.begin_y +ℤ d.lower_win.nlines ≤ℤ pos 24)
    × (pos 24 ≤ℤ d.lower_win.begin_y +ℤ d.lower_win.nlines +ℤ pos 1)
update_size_tiles_example = update_size_tiles 24 80 screen (omega arith)

run_input-IsShown_iff_example :
    IsShown (run_input resize 30 80 typing).0 ↔ ((resize ≢ resize) ⊎ (codes "ok" ≡ []))
run_input-IsShown_iff_example = run_input-IsShown_iff resize 30 80 typing refl

abbrev session : List Press
session =
    record { key = char b'o'; rows = 24; columns = 80 }
    ∷ record { key = resize; rows = 30; columns = 80 }
    ∷ record { key = char b'k'; rows = 30; columns = 80 }
    ∷ record { key = enter; rows = 30; columns = 80 }
    ∷ []

abbrev no_line : Editor
no_line = record { stack = []; lines = []; shown = [] }

run_keys-press_all_example :
    Matches (run_keys session screen).0 (press_all session no_line)
    × ((run_keys session screen).1 ≡ (press_all session no_line).lines)
run_keys-press_all_example =
    run_keys-press_all session screen no_line (record { buffer = refl; window = refl })

-- Ids below zero are accepted too.
read_arguments-to_string_example :
    read_arguments
      (λ _. true)
      (codes "chat"
        ∷ codes "/dev/ttyS0"
        ∷ to_string_ℤ (pos 1)
        ∷ to_string_ℤ (negsuc 1)
        ∷ codes "log"
        ∷ [])
    ≡ some (record {
      serial_port = codes "/dev/ttyS0";
      my_id = pos 1;
      buddy_id = negsuc 1;
      log_file = codes "log";
    })
read_arguments-to_string_example =
    read_arguments-to_string (λ _. true) (codes "chat") (codes "/dev/ttyS0") (codes "log") (pos 1)
      (negsuc 1) (omega arith) (omega arith) refl

mac_config-own_slots_example :
    ((mac_config (pos 1) (pos 2)).slot ≡ (mac_config (pos 2) (pos 1)).slot)
    × (own_slots (mac_config (pos 1) (pos 2)) ≡ 1)
    × (own_slots (mac_config (pos 2) (pos 1)) ≡ 1)
mac_config-own_slots_example = mac_config-own_slots (pos 1) (pos 2) (λ e. cc)

abbrev pub settings : Settings
settings = record {
  serial_port = codes "/dev/ttyS0";
  my_id = pos 1;
  buddy_id = pos 2;
  log_file = codes "log";
}

abbrev pub chat : Chat
chat = record {
  my_id = pos 1;
  buddy_id = pos 2;
  curses = startup 24 80 (set_modem_id (to_unsigned (pos 1)) screen);
  pushed = [];
  exit_code = none;
}

abbrev pub press : Key → Round
press k = record { key = k; rows = 24; columns = 80; signals = []; throws = false }

pub started_chat : start false 24 80 settings screen ≡ some chat
unfolding start
started_chat = refl
