-- ===== src/Chat/Arrival.antt =====
-- A line that is typed at one end of a chat and read at the other.
use goby3_examples.Base.{
  ℕ, zero, suc, arith, ◌≤◌, length, inl, sym, ◌≡◌, refl, ap, ◌∙◌, false, none, List, [], ◌∷◌, ◌++◌,
  take, All, Among, Among-last, true,
}
use goby3_examples.Base.Text.{Text, codes, to_string}
use goby3_examples.Curses.{enter, no_key, max_line, run_input}
use goby3_examples.Curses.Typing.{IsPrintable}
use goby3_examples.Chat.{
  ChatMessage, Chat, Round, data_received, to_unsigned, handle, handle_all, push_line, round, run,
  is_none,
}
use goby3_examples.Chat.Delivery.{press, typing, message, run-received_data}
use goby3_examples.Chat.Talk.{Talk, IsId, data_in, at_a, at_b, Steps, stay, later}

-- A round in which the three Goby objects do nothing.
record IsQuiet (r : Round) : Type 0 where
  silent : r.signals ≡ []
  safe : r.throws ≡ false

push_line-exit_code : (line : Text) (c : Chat) → (push_line line c).exit_code ≡ c.exit_code
unfolding push_line
push_line-exit_code [] c = refl
push_line-exit_code (k ∷ line) c = refl

round-exit_code : (r : Round) (c : Chat) → IsQuiet r → (round r c).exit_code ≡ c.exit_code
unfolding round handle_all
round-exit_code r c q = rw (q.silent, q.safe) (push_line-exit_code _ _)

Steps-append : {t u v : Talk} → Steps t u → Steps u v → Steps t v
Steps-append first stay = first
Steps-append first (later steps last) = later (Steps-append first steps) last

take_short : (n : ℕ) (s : Text) → length (take n s) ≤ n
take_short zero s = omega arith
take_short (suc n) [] = omega arith
take_short (suc n) (k ∷ s) = omega (arith, take_short n s)

-- Quiet rounds of the first end, one after the other.
quiet_rounds :
    (rs : List Round) (t : Talk)
    → All IsQuiet rs
    → t.a.exit_code ≡ none
    → (u : Talk) × Steps t u × (u.a ≡ run rs t.a) × (u.b ≡ t.b)
unfolding run
quiet_rounds [] t q running = (t, stay, refl, refl)
quiet_rounds (r ∷ rs) t q running =
    let goes : is_none t.a.exit_code ≡ true = rw running refl in
    let (u, steps, same, other) =
      quiet_rounds rs (record t { a = round r t.a; a_heard = t.a_heard ++ data_in r.signals }) q.1
        (round-exit_code r t.a q.0 ∙ running) in
    (
      u,
      Steps-append (later stay (at_a r running (rw q.0.silent tt))) steps,
      rw (goes, run) same,
      other,
    )

module _ (rows columns : ℕ) where
  typing-IsQuiet : (s : Text) → All IsQuiet (typing rows columns s ++ press rows columns enter ∷ [])
  typing-IsQuiet [] = (record { silent = refl; safe = refl }, tt)
  typing-IsQuiet (k ∷ s) = (record { silent = refl; safe = refl }, typing-IsQuiet s)

  -- A round in which a message comes in and no key does.
  abbrev hearing : ChatMessage → Round
  hearing m = record (press rows columns no_key) { signals = data_received m ∷ [] }

  round-hearing : (m : ChatMessage) (c : Chat) → round (hearing m) c ≡ handle (data_received m) c
  unfolding round push_line handle_all run_input
  round-hearing m c = refl

  -- In any state of the two ends, whose ids lie within the bounds of chat.proto, the second of which
  -- is the buddy of the first, while both run and the first has begun no line: if a line of
  -- printable characters, not empty, and then Enter are typed at the first end, some rounds lead to
  -- a state in which the other end has been handed the line, cut to 26 characters, and its log has
  -- grown by just that line, labelled with the first end's id, while the line being typed there is
  -- what it was.
  pub talk_arrives :
      (k : ℕ) (s : Text) (t : Talk)
      → IsPrintable (k ∷ s)
      → t.a.curses.line_buffer ≡ []
      → t.a.exit_code ≡ none
      → t.b.exit_code ≡ none
      → t.a.buddy_id ≡ t.b.my_id
      → IsId t.a.my_id
      → IsId t.b.my_id
      → let m = message rows columns t.a (take max_line (k ∷ s)) in
        (u : Talk) × Steps t u
        × (u.a ≡ run (typing rows columns (k ∷ s) ++ press rows columns enter ∷ []) t.a)
        × Among m u.b_heard
        × (u.b.curses.upper
            ≡ t.b.curses.upper
              ++ ((codes "["
                    ++ to_string (to_unsigned t.a.my_id)
                    ++ codes "]: "
                    ++ take max_line (k ∷ s))
                  ++ b'\n' ∷ [])
                ∷ [])
        × (u.b.curses.line_buffer ≡ t.b.curses.line_buffer)
  talk_arrives k s t p fresh running running' to_b id_a id_b =
      let m = message rows columns t.a (take max_line (k ∷ s)) in
      let (pushes, shows, keeps) = run-received_data rows columns k s t.a t.b p fresh running in
      let (u, steps, same, other) =
        quiet_rounds (typing rows columns (k ∷ s) ++ press rows columns enter ∷ []) t
          (typing-IsQuiet (k ∷ s)) running in
      let there : Among m u.a.pushed =
        rw (ap (λ c. c.pushed) same ∙ pushes) (Among-last m t.a.pushed) in
      let heard : round (hearing m) u.b ≡ handle (data_received m) t.b =
        rw other (round-hearing m t.b) in
      (
        record u { b = round (hearing m) u.b; b_heard = u.b_heard ++ m ∷ [] },
        later steps (
            at_b (hearing m) (ap (λ c. c.exit_code) other ∙ running') (
              (
                there,
                inl (to_b ∙ sym (ap (λ c. c.my_id) other)),
                (rw to_b id_b, id_a, take_short max_line (k ∷ s)),
              ),
              tt,
            )),
        same,
        Among-last m u.b_heard,
        ap (λ c. c.curses.upper) heard ∙ shows,
        ap (λ c. c.curses.line_buffer) heard ∙ keeps,
      )
