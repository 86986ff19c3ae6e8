-- ===== src/Chat/Session.antt =====
-- What a chat sends, over any run of its loop.
use goby3_examples.Base.{
  ℕ, ◌≡◌, refl, ◌≢◌, Bool, true, false, none, some, List, [], ◌∷◌, All, All-append, inl, inr,
  Bool-cases, if◌then◌else◌, arith,
}
use goby3_examples.Base.Int.{ℤ, ◌==ℤ◌}
use goby3_examples.Modem.{ModemTransmission}
use goby3_examples.Base.Text.{Text}
use goby3_examples.Curses.{ChatCurses, post_message, post_line, update_size, set_modem_id, startup}
use goby3_examples.Curses.Typing.{IsLine, run_input-IsLine}
use goby3_examples.Chat.{
  ChatMessage, Chat, Settings, Signal, Round, initiate_transmission, data_received, ack_received,
  handle, handle_all, monitor_mac, received_data, received_ack, start, push_line, round, run,
  is_none,
}

-- A message that chat.proto's limits and the ends of the chat allow.
pub record IsMessage (mine buddy : ℤ) (m : ChatMessage) : Type 0 where
  pub from : m.source ≡ mine
  pub to : m.destination ≡ buddy
  pub line : IsLine m.telegram
  pub something : m.telegram ≢ []

pub record IsSound (mine buddy : ℤ) (c : Chat) : Type 0 where
  pub my_id_is : c.my_id ≡ mine
  pub buddy_id_is : c.buddy_id ≡ buddy
  pub typing : IsLine c.curses.line_buffer
  pub sent : All (IsMessage mine buddy) c.pushed

module _ {mine buddy : ℤ} where
  -- What is written to the screen changes nothing else.
  posted-IsSound :
      (c : Chat) (line : Text)
      → IsSound mine buddy c
      → IsSound mine buddy (record c { curses = post_line line c.curses })
  unfolding post_line
  posted-IsSound c line h = record {
    my_id_is = h.my_id_is;
    buddy_id_is = h.buddy_id_is;
    typing = h.typing;
    sent = h.sent;
  }

  monitor_mac-IsSound :
      (m : ModemTransmission) (c : Chat)
      → IsSound mine buddy c
      → IsSound mine buddy (monitor_mac m c)
  unfolding monitor_mac
  monitor_mac-IsSound m c h = elim (Bool-cases (m.src ==ℤ c.my_id)) [
    | inl e ↦ rw e (posted-IsSound c _ h)
    | inr e ↦ elim (Bool-cases (m.src ==ℤ c.buddy_id)) [
      | inl f ↦ rw (e, f) (posted-IsSound c _ h)
      | inr f ↦ rw (e, f) h
    ]
  ]

  handle-IsSound : (s : Signal) (c : Chat) → IsSound mine buddy c → IsSound mine buddy (handle s c)
  unfolding handle received_data received_ack post_message
  handle-IsSound (initiate_transmission m) c h = monitor_mac-IsSound m c h
  handle-IsSound (data_received m) c h = posted-IsSound c _ h
  handle-IsSound (ack_received a m) c h = posted-IsSound c _ h

  handle_all-IsSound :
      (ss : List Signal) (c : Chat) → IsSound mine buddy c → IsSound mine buddy (handle_all ss c)
  unfolding handle_all
  handle_all-IsSound [] c h = h
  handle_all-IsSound (s ∷ ss) c h = handle_all-IsSound ss (handle s c) (handle-IsSound s c h)

  push_line-IsSound :
      (line : Text) (c : Chat)
      → IsLine line
      → IsSound mine buddy c
      → IsSound mine buddy (push_line line c)
  unfolding push_line
  push_line-IsSound [] c l h = h
  push_line-IsSound (x ∷ line) c l h = record {
    my_id_is = h.my_id_is;
    buddy_id_is = h.buddy_id_is;
    typing = h.typing;
    sent =
        All-append _ c.pushed _ h.sent
          (record { from = h.my_id_is; to = h.buddy_id_is; line = l; something = λ e. cc }, tt);
  }

  key-IsSound :
      (c : Chat) (curses' : ChatCurses)
      → IsLine curses'.line_buffer
      → IsSound mine buddy c
      → IsSound mine buddy (record c { curses = curses' })
  key-IsSound c curses' l h = record {
    my_id_is = h.my_id_is;
    buddy_id_is = h.buddy_id_is;
    typing = l;
    sent = h.sent;
  }

  exit-IsSound :
      (c : Chat) (throws : Bool)
      → IsSound mine buddy c
      → IsSound mine buddy (if throws then record c { exit_code = some 1 } else c)
  exit-IsSound c true h = record {
    my_id_is = h.my_id_is;
    buddy_id_is = h.buddy_id_is;
    typing = h.typing;
    sent = h.sent;
  }
  exit-IsSound c false h = h

  pub round-IsSound : (r : Round) (c : Chat) → IsSound mine buddy c → IsSound mine buddy (round r c)
  unfolding round
  round-IsSound r c h =
      let (typing, line) = run_input-IsLine r.key r.rows r.columns c.curses h.typing in
      exit-IsSound _ r.throws
        (handle_all-IsSound r.signals _ (push_line-IsSound _ _ line (key-IsSound c _ typing h)))

  run-IsSound : (rs : List Round) (c : Chat) → IsSound mine buddy c → IsSound mine buddy (run rs c)
  unfolding run
  run-IsSound [] c h = h
  run-IsSound (r ∷ rs) c h = elim (Bool-cases (is_none c.exit_code)) [
    | inl e ↦ rw (e, run) (run-IsSound rs (round r c) (round-IsSound r c h))
    | inr e ↦ rw (e, run) h
  ]

started_fields :
    (rows columns : ℕ) (s : Settings) (window : ChatCurses) {c : Chat}
    → start false rows columns s window ≡ some c
    → (c.my_id ≡ s.my_id)
      × (c.buddy_id ≡ s.buddy_id)
      × (c.curses.line_buffer ≡ window.line_buffer)
      × (c.pushed ≡ [])
unfolding start startup update_size set_modem_id
started_fields rows columns s window h = ground arith

pub start-IsSound :
    (rows columns : ℕ) (s : Settings) (window : ChatCurses) {c : Chat}
    → window.line_buffer ≡ []
    → start false rows columns s window ≡ some c
    → IsSound s.my_id s.buddy_id c
start-IsSound rows columns s window e h =
    let (mine, buddy, line, pushed) = started_fields rows columns s window h in
    record {
      my_id_is = mine;
      buddy_id_is = buddy;
      typing = rw (line, e) (record { fits = omega arith; printable = tt });
      sent = rw pushed tt;
    }

-- From a startup with an empty line, through any rounds of keys, signals and exceptions, every
-- message handed to the queue goes from this end to the buddy, is not empty, and is of at most 26
-- printable characters.
pub start-run-IsMessage :
    (rows columns : ℕ) (s : Settings) (window : ChatCurses) (rs : List Round) {c : Chat}
    → window.line_buffer ≡ []
    → start false rows columns s window ≡ some c
    → All (IsMessage s.my_id s.buddy_id) (run rs c).pushed
start-run-IsMessage rows columns s window rs {c} e h =
    (run-IsSound rs c (start-IsSound rows columns s window e h)).sent

run_stopped : (rs : List Round) (c : Chat) {n : ℕ} → c.exit_code ≡ some n → run rs c ≡ c
unfolding run
run_stopped [] c h = refl
run_stopped (r ∷ rs) c h =
    let stopped : is_none c.exit_code ≡ false = ground arith in rw (stopped, run)

round-throws : (r : Round) (c : Chat) → r.throws ≡ true → (round r c).exit_code ≡ some 1
unfolding round
round-throws r c h = rw h

-- An exception in the work of a round that the loop reaches ends the loop with code 1: no later
-- round has an effect.
pub run-throws :
    (r : Round) (rs : List Round) (c : Chat)
    → c.exit_code ≡ none
    → r.throws ≡ true
    → (run (r ∷ rs) c ≡ round r c) × ((run (r ∷ rs) c).exit_code ≡ some 1)
unfolding run
run-throws r rs c fresh h =
    let runs : is_none c.exit_code ≡ true = ground arith in
    let code = round-throws r c h in
    let last : run (r ∷ rs) c ≡ round r c = rw (runs, run) (run_stopped rs (round r c) code) in
    (last, rw last code)
