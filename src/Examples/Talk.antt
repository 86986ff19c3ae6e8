-- ===== src/Examples/Talk.antt =====
-- Modem 1 types "o" and Enter, and modem 2 hears it twice.
use goby3_examples.Base.{arith, ◌++◌, Among, ◌≡◌, refl, false, some, [], ◌∷◌, All, inl}
use goby3_examples.Base.Int.{pos}
use goby3_examples.Base.Text.{codes, to_string}
use goby3_examples.Curses.{
  char, enter, no_key, run_input, type_char, send_line, isprint, startup, update_size, set_modem_id,
  post_message, post_line,
}
use goby3_examples.Chat.{
  ChatMessage, Settings, Chat, Round, data_received, to_unsigned, start, round, run, push_line,
  handle, handle_all, received_data,
}
use goby3_examples.Chat.Session.{IsMessage}
use goby3_examples.Chat.Delivery.{message, typing}
use goby3_examples.Chat.Arrival.{talk_arrives}
use goby3_examples.Chat.Talk.{Talk, at_a, at_b, Steps, stay, later, begin, talk-IsMessage}
use goby3_examples.Examples.Chat.{screen, settings, chat, started_chat, press}

abbrev other_settings : Settings
other_settings = record settings { my_id = pos 2; buddy_id = pos 1 }

abbrev other : Chat
other = record chat {
  my_id = pos 2;
  buddy_id = pos 1;
  curses = startup 24 80 (set_modem_id (to_unsigned (pos 2)) screen);
}

started_other : start false 24 80 other_settings screen ≡ some other
unfolding start
started_other = refl

abbrev said : ChatMessage
said = record { destination = pos 2; source = pos 1; telegram = codes "o" }

abbrev hears : Round
hears = record (press no_key) { signals = data_received said ∷ data_received said ∷ [] }

abbrev spoken : Chat
spoken = round (press enter) (round (press (char b'o')) chat)

abbrev both : Talk
both = record { a = spoken; b = round hears other; a_heard = []; b_heard = said ∷ said ∷ [] }

speaks : Steps (begin chat other) both
unfolding round push_line handle_all handle received_data run_input type_char send_line isprint
    startup update_size set_modem_id post_message post_line
speaks =
    later (later (later stay (at_a (press (char b'o')) refl tt)) (at_a (press enter) refl tt))
      (at_b hears refl ((inl refl, inl refl, omega arith), ((inl refl, inl refl, omega arith), tt)))

talk-IsMessage_example :
    All (IsMessage (pos 2) (pos 1)) both.a_heard × All (IsMessage (pos 1) (pos 2)) both.b_heard
talk-IsMessage_example =
    talk-IsMessage 24 80 settings other_settings screen both refl refl refl started_chat
      started_other speaks

talk_arrives_example :
    let t = begin chat other in
    let m = message 24 80 chat (codes "ok") in
    (u : Talk) × Steps t u
    × (u.a ≡ run (typing 24 80 (codes "ok") ++ press enter ∷ []) chat)
    × Among m u.b_heard
    × (u.b.curses.upper
        ≡ ((codes "[" ++ to_string (to_unsigned (pos 1)) ++ codes "]: " ++ codes "ok")
            ++ b'\n' ∷ [])
          ∷ [])
    × (u.b.curses.line_buffer ≡ [])
unfolding isprint startup update_size set_modem_id
talk_arrives_example =
    talk_arrives 24 80 b'o' (codes "k") (begin chat other) (refl, (refl, tt)) refl refl refl refl
      (omega arith) (omega arith)
