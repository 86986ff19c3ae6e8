-- ===== src/Curses/Typing.antt =====
-- What the lines are that `run_input` returns.
use goby3_examples.Base.{
  ℕ, zero, suc, ◌-◌, ◌≤◌, ◌<◌, ◌≡◌, refl, inl, inr, ◌∙◌, sym, true, ◌&&◌, not, [], ◌∷◌, ◌++◌,
  append_assoc, append-nil, length, length-append, init, length-init, take, All, All-append, ltb,
  ◌==◌, ltb→lt, if◌then◌else◌, Bool-cases, arith,
}
use goby3_examples.Base.Text.{Text}
use goby3_examples.Curses.{
  ChatCurses, Key, char, delete_char, backspace, enter, resize, no_key, max_line, isprint, is_empty,
  run_input, update_size, type_char, send_line, erase_last,
}

abbrev pub IsPrintable : Text → Type 0
IsPrintable = All (λ k. isprint k ≡ true)

-- A line that the chat's message type takes: its telegram has at most 26 characters.
pub record IsLine (s : Text) : Type 0 where
  pub fits : length s ≤ max_line
  pub printable : IsPrintable s

init-IsPrintable : (s : Text) → IsPrintable s → IsPrintable (init s)
init-IsPrintable [] h = tt
init-IsPrintable (x ∷ []) h = tt
init-IsPrintable (x ∷ y ∷ s) h = (h.0, init-IsPrintable (y ∷ s) h.1)

init-IsLine : (s : Text) → IsLine s → IsLine (init s)
init-IsLine s h = record {
  fits = omega (arith, length-init s, h.fits);
  printable = init-IsPrintable s h.printable;
}

type-IsLine :
    (k : ℕ) (s : Text) → isprint k ≡ true → length s < max_line → IsLine s → IsLine (s ++ k ∷ [])
type-IsLine k s p room h = record {
  fits = omega (arith, length-append s (k ∷ []));
  printable = All-append _ s (k ∷ []) h.printable (p, tt);
}

empty-IsLine : IsLine []
empty-IsLine = record { fits = omega arith; printable = tt }

erase_last-IsLine :
    (c : ChatCurses)
    → IsLine c.line_buffer
    → IsLine (erase_last c).0.line_buffer × IsLine (erase_last c).1
unfolding erase_last
erase_last-IsLine c h = elim (Bool-cases (is_empty c.line_buffer)) [
  | inl e ↦ rw e (empty-IsLine, empty-IsLine)
  | inr e ↦ rw e (init-IsLine c.line_buffer h, empty-IsLine)
]

send_line-IsLine :
    (c : ChatCurses)
    → IsLine c.line_buffer
    → IsLine (send_line c).0.line_buffer × IsLine (send_line c).1
unfolding send_line
send_line-IsLine c h = (empty-IsLine, h)

type_char-IsLine :
    (k : ℕ) (c : ChatCurses)
    → IsLine c.line_buffer
    → IsLine (type_char k c).0.line_buffer × IsLine (type_char k c).1
unfolding type_char
type_char-IsLine k c h = elim (Bool-cases (isprint k && ltb (length c.line_buffer) max_line)) [
  | inl e ↦ rw e (type-IsLine k c.line_buffer (ground arith) (ground arith) h, empty-IsLine)
  | inr e ↦ rw e (h, empty-IsLine)
]

-- If the line being typed has at most 26 characters, all printable, it has so after any key, and so
-- has what the key returns.
pub run_input-IsLine :
    (k : Key) (y x : ℕ) (c : ChatCurses)
    → IsLine c.line_buffer
    → IsLine (run_input k y x c).0.line_buffer × IsLine (run_input k y x c).1
unfolding run_input update_size
run_input-IsLine delete_char y x c h = erase_last-IsLine c h
run_input-IsLine backspace y x c h = erase_last-IsLine c h
run_input-IsLine enter y x c h = elim (Bool-cases (is_empty c.line_buffer)) [
  | inl e ↦ rw e (h, empty-IsLine)
  | inr e ↦ rw e (send_line-IsLine c h)
]
run_input-IsLine resize y x c h = (h, empty-IsLine)
run_input-IsLine (char k) y x c h =
    elim (Bool-cases ((k == b'\n') && not (is_empty c.line_buffer))) [
      | inl e ↦ rw e (send_line-IsLine c h)
      | inr e ↦ rw e (type_char-IsLine k c h)
    ]
run_input-IsLine no_key y x c h = (h, empty-IsLine)

-- The keys of a text, one after the other; what `run_input` returns is dropped.
unfoldable pub type_text : Text → ℕ → ℕ → ChatCurses → ChatCurses
type_text [] y x c = c
type_text (k ∷ s) y x c = type_text s y x (run_input (char k) y x c).0

char-line_buffer :
    (k y x : ℕ) (c : ChatCurses)
    → isprint k ≡ true
    → (run_input (char k) y x c).0.line_buffer
      ≡ (if ltb (length c.line_buffer) max_line then c.line_buffer ++ k ∷ [] else c.line_buffer)
unfolding run_input type_char isprint
char-line_buffer k y x c p = ground arith

-- A printable character completes no line.
pub char-no_line :
    (k y x : ℕ) (c : ChatCurses) → isprint k ≡ true → (run_input (char k) y x c).1 ≡ []
unfolding run_input type_char isprint
char-no_line k y x c p = ground arith

take-nil : (n : ℕ) → take {A = ℕ} n [] ≡ []
take-nil zero = refl
take-nil (suc n) = refl

append-take :
    (b s : Text) (k n : ℕ)
    → length b < n
    → (b ++ k ∷ []) ++ take (n - length (b ++ k ∷ [])) s ≡ b ++ take (n - length b) (k ∷ s)
append-take b s k n h =
    let shorter : n - length b ≡ suc (n - length (b ++ k ∷ [])) =
      omega (arith, length-append b (k ∷ [])) in
    rw shorter (append_assoc b (k ∷ []) _)

take_none : (b s : Text) (n : ℕ) → n ≤ length b → b ++ take (n - length b) s ≡ b
take_none b s n h = let spent : n - length b ≡ 0 = omega arith in rw spent (append-nil b)

type_text-line_buffer :
    (s : Text) (y x : ℕ) (c : ChatCurses)
    → IsPrintable s
    → (type_text s y x c).line_buffer ≡ c.line_buffer ++ take (max_line - length c.line_buffer) s
unfolding type_text
type_text-line_buffer [] y x c p =
    rw (take-nil (max_line - length c.line_buffer)) (sym (append-nil c.line_buffer))
type_text-line_buffer (k ∷ s) y x c p =
    let c' : ChatCurses = (run_input (char k) y x c).0 in
    let typed = char-line_buffer k y x c p.0 in
    type_text-line_buffer s y x c' p.1 ∙ elim (Bool-cases (ltb (length c.line_buffer) max_line)) [
      | inl e ↦ rw (typed, e) (append-take c.line_buffer s k max_line (ltb→lt _ _ e))
      | inr e ↦
          rw (typed, e)
            (take_none c.line_buffer s max_line (ground arith)
              ∙ sym (take_none c.line_buffer (k ∷ s) max_line (ground arith)))
    ]

enter-line :
    (y x : ℕ) (c : ChatCurses)
    → ((run_input enter y x c).1 ≡ c.line_buffer) × ((run_input enter y x c).0.line_buffer ≡ [])
unfolding run_input send_line
enter-line y x c = ground arith

-- From an empty line, typing printable characters and then Enter sends the first 26 of them, and
-- leaves an empty line.
pub type_text-enter :
    (s : Text) (y x : ℕ) (c : ChatCurses)
    → IsPrintable s
    → c.line_buffer ≡ []
    → ((run_input enter y x (type_text s y x c)).1 ≡ take max_line s)
      × ((run_input enter y x (type_text s y x c)).0.line_buffer ≡ [])
type_text-enter s y x c p e =
    let (line, left) = enter-line y x (type_text s y x c) in
    (line ∙ type_text-line_buffer s y x c p ∙ rw e, left)
