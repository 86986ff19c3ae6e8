-- ===== src/Chat/Exits.antt =====
-- When the chat's `main` returns, and with what code.
use goby3_examples.Base.{
  ℕ, ◌≡◌, refl, ◌≢◌, ap, ◌∙◌, ◌↔◌, ◌⊎◌, inl, inr, Bool, true, false, Option, none, some, List, [],
  ◌∷◌, All, Bool-cases, arith,
}
use goby3_examples.Base.Text.{Text}
use goby3_examples.Curses.{ChatCurses, run_input}
use goby3_examples.Chat.{
  Settings, Chat, Signal, Round, initiate_transmission, data_received, ack_received, handle,
  handle_all, monitor_mac, received_data, received_ack, push_line, read_arguments, start, run,
  round, is_none,
}
use goby3_examples.Chat.Session.{run-throws}
use goby3_examples.Chat.Main.{
  Step, throws_there, finish, with_settings, main, connections, startup_failure,
}

-- No round of the loop throws.
abbrev pub Works : List Round → Type 0
Works rs = All (λ r. r.throws ≡ false) rs

handle_all-exit : (ss : List Signal) (c : Chat) → (handle_all ss c).exit_code ≡ c.exit_code
unfolding handle_all handle monitor_mac received_data received_ack
handle_all-exit [] c = refl
handle_all-exit (initiate_transmission m ∷ ss) c =
    ground (arith, handle_all-exit ss (monitor_mac m c))
handle_all-exit (data_received m ∷ ss) c = handle_all-exit ss (received_data m c)
handle_all-exit (ack_received a m ∷ ss) c = handle_all-exit ss (received_ack a m c)

push_line-exit : (line : Text) (c : Chat) → (push_line line c).exit_code ≡ c.exit_code
unfolding push_line
push_line-exit [] c = refl
push_line-exit (x ∷ line) c = refl

round-works : (r : Round) (c : Chat) → r.throws ≡ false → (round r c).exit_code ≡ c.exit_code
unfolding round
round-works r c h = rw h (
    handle_all-exit r.signals _
    ∙ push_line-exit _ (record c { curses = (run_input r.key r.rows r.columns c.curses).0 }))

run-exit :
    (rs : List Round) (c : Chat)
    → c.exit_code ≡ none
    → (((run rs c).exit_code ≡ none) × Works rs) ⊎ (((run rs c).exit_code ≡ some 1) × (¬ Works rs))
unfolding run
run-exit [] c h = inl (h, tt)
run-exit (r ∷ rs) c h = elim (Bool-cases r.throws) [
  | inl e ↦ inr ((run-throws r rs c h e).1, λ w. cc (w.0, e))
  | inr e ↦
      let going : is_none c.exit_code ≡ true = ground arith in
      rw (going, run)
        (elim (run-exit rs (round r c) (round-works r c e ∙ h)) [
          | inl w ↦ inl (w.0, (e, w.1))
          | inr w ↦ inr (w.0, λ v. w.1 v.1)
        ])
]

start-exit :
    (throws : Bool) (rows columns : ℕ) (s : Settings) (window : ChatCurses)
    → ((throws ≡ true) × (start throws rows columns s window ≡ none))
      ⊎ ((throws ≡ false)
          × ((c : Chat) × (start throws rows columns s window ≡ some c) × (c.exit_code ≡ none)))
unfolding start
start-exit true rows columns s window = inl (refl, refl)
start-exit false rows columns s window = inr (refl, (_, refl, refl))

no_throw : (at : Option Step) → throws_there at ≡ false → at ≡ none
no_throw none h = refl
no_throw (some at) h = cc

-- What an exit code is to say of the arguments, the startup and the rounds.
abbrev pub IsCode : Option ℕ → Option Settings → Option Step → List Round → Type 0
IsCode code settings at rs =
    ((code ≡ none) × (settings ≢ none) × (at ≡ none) × Works rs)
    ⊎ ((code ≡ some 1) × ((settings ≡ none) ⊎ (at ≢ none) ⊎ ¬ Works rs))

with_settings-IsCode :
    (o : Option Settings) (at : Option Step) (rows columns : ℕ) (window : ChatCurses)
    (rs : List Round)
    → IsCode (with_settings at rows columns window rs o).exit_code o at rs
unfolding with_settings finish startup_failure
with_settings-IsCode none at rows columns window rs = inr (refl, inl refl)
with_settings-IsCode (some s) at rows columns window rs =
    elim (start-exit (throws_there at) rows columns s window) [
      | inl (e, f) ↦ rw f (inr (refl, inr (inl (λ n. cc (e, ap throws_there n)))))
      | inr (e, (c, f, g)) ↦ rw f (elim (run-exit rs c g) [
        | inl (k, w) ↦ inl (k, λ n. cc, no_throw at e, w)
        | inr (k, w) ↦ inr (k, inr (inr w))
      ])
    ]

with_settings-setup :
    (o : Option Settings) (at : Option Step) (rows columns : ℕ) (window : ChatCurses)
    (rs : List Round)
    → ((with_settings at rows columns window rs o).setup ≡ []) ↔ (o ≡ none)
unfolding with_settings finish connections
with_settings-setup none at rows columns window rs = (λ h. refl, λ h. refl)
with_settings-setup (some s) at rows columns window rs = (λ h. ground arith, λ h. cc)

-- Whatever the arguments, the exception at startup if there is one, and the rounds: either the loop
-- still runs, and then the arguments were read, nothing threw at startup and no round has thrown; or
-- `main` has returned 1, and then one of the three was not so. Goby is not touched at all exactly if
-- the arguments could not be read.
pub main-IsCode :
    (can_open : Text → Bool) (args : List Text) (at : Option Step) (rows columns : ℕ)
    (window : ChatCurses) (rs : List Round)
    → let done = main can_open args at rows columns window rs in
      IsCode done.exit_code (read_arguments can_open args) at rs
      × ((done.setup ≡ []) ↔ (read_arguments can_open args ≡ none))
unfolding main
main-IsCode can_open args at rows columns window rs = (
  with_settings-IsCode (read_arguments can_open args) at rows columns window rs,
  with_settings-setup (read_arguments can_open args) at rows columns window rs,
)
