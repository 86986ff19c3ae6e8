-- ===== src/Chat/Delivery.antt =====
-- A line on its way from the keyboard of one end to the screen of the other.
use goby3_examples.Base.{
  ℕ, ◌≡◌, refl, ◌∙◌, ap, true, false, none, List, [], ◌∷◌, ◌++◌, map, take, arith,
}
use goby3_examples.Base.Text.{Text, codes, to_string}
use goby3_examples.Curses.{Key, char, enter, max_line, isprint, run_input, post_message, post_line}
use goby3_examples.Curses.Typing.{IsPrintable, type_text, char-no_line, type_text-enter}
use goby3_examples.Chat.{
  ChatMessage, Chat, Round, data_received, to_unsigned, handle, handle_all, received_data,
  push_line, round, run, is_none,
}

module _ (rows columns : ℕ) where
  -- A round with a key, on a screen of one size, in which nothing else happens.
  abbrev pub press : Key → Round
  press k = record { key = k; rows = rows; columns = columns; signals = []; throws = false }

  -- The rounds in which a text is typed.
  abbrev pub typing : Text → List Round
  typing s = map (λ k. press (char k)) s

  round-char :
      (k : ℕ) (c : Chat)
      → isprint k ≡ true
      → round (press (char k)) c
        ≡ record c { curses = (run_input (char k) rows columns c.curses).0 }
  unfolding round push_line handle_all
  round-char k c p = rw (char-no_line k rows columns c.curses p) refl

  run-typing :
      (s : Text) (rs : List Round) (c : Chat)
      → IsPrintable s
      → c.exit_code ≡ none
      → run (typing s ++ rs) c ≡ run rs (record c { curses = type_text s rows columns c.curses })
  unfolding type_text run
  run-typing [] rs c p e = refl
  run-typing (k ∷ s) rs c p e =
      let runs : is_none c.exit_code ≡ true = ground arith in
      let next = round-char k c p.0 in
      rw (runs, run) (ap (run (typing s ++ rs)) next ∙ run-typing s rs _ p.1 e)

  -- The message that an end makes of a line.
  abbrev pub message : Chat → Text → ChatMessage
  message c line = record { destination = c.buddy_id; source = c.my_id; telegram = line }

  round-enter :
      (c : Chat) (k : ℕ) (line : Text)
      → (run_input enter rows columns c.curses).1 ≡ k ∷ line
      → (round (press enter) c).pushed ≡ c.pushed ++ message c (k ∷ line) ∷ []
  unfolding round push_line handle_all
  round-enter c k line h = rw h refl

  run-line :
      (k : ℕ) (s : Text) (c : Chat)
      → IsPrintable (k ∷ s)
      → c.curses.line_buffer ≡ []
      → c.exit_code ≡ none
      → (run (typing (k ∷ s) ++ press enter ∷ []) c).pushed
        ≡ c.pushed ++ message c (take max_line (k ∷ s)) ∷ []
  unfolding run
  run-line k s c p fresh e =
      let typed : Chat = record c { curses = type_text (k ∷ s) rows columns c.curses } in
      let runs : is_none c.exit_code ≡ true = ground arith in
      let sent = (type_text-enter (k ∷ s) rows columns c.curses p fresh).0 in
      rw (run-typing (k ∷ s) (press enter ∷ []) c p e)
        (rw (runs, run) (round-enter typed k (take 25 s) sent))

  -- A line of printable characters, typed at an end that runs and has begun no line, is pushed once
  -- Enter is pressed, cut to 26 characters and addressed to the buddy. When the other end receives
  -- that message, its log grows by just that line, labelled with the id of the end that sent it.
  pub run-received_data :
      (k : ℕ) (s : Text) (a b : Chat)
      → IsPrintable (k ∷ s)
      → a.curses.line_buffer ≡ []
      → a.exit_code ≡ none
      → let m = message a (take max_line (k ∷ s)) in
        ((run (typing (k ∷ s) ++ press enter ∷ []) a).pushed ≡ a.pushed ++ m ∷ [])
        × ((handle (data_received m) b).curses.upper
            ≡ b.curses.upper
              ++ ((codes "["
                    ++ to_string (to_unsigned a.my_id)
                    ++ codes "]: "
                    ++ take max_line (k ∷ s))
                  ++ b'\n' ∷ [])
                ∷ [])
        × ((handle (data_received m) b).curses.line_buffer ≡ b.curses.line_buffer)
  unfolding handle received_data post_message post_line
  run-received_data k s a b p fresh e = (run-line k s a p fresh e, refl, refl)
