-- ===== src/Curses/Screen.antt =====
-- What the lower window shows of the line being typed.
use goby3_examples.Base.{sym, ◌↔◌, ◌⊎◌, inl, inr, ℕ, ◌≡◌, refl, ◌≢◌, [], arith}
use goby3_examples.Curses.{
  ChatCurses, Key, char, delete_char, backspace, enter, resize, no_key, run_input, update_size,
  post_message, post_line,
}

-- The lower window shows the line being typed.
abbrev pub IsShown : ChatCurses → Type 0
IsShown c = c.lower ≡ c.line_buffer

-- Every key but a resize keeps the lower window in step with the line.
pub run_input-IsShown :
    (k : Key) (y x : ℕ) (c : ChatCurses) → k ≢ resize → IsShown c → IsShown (run_input k y x c).0
unfolding run_input post_message post_line
run_input-IsShown delete_char y x c n h = ground arith
run_input-IsShown backspace y x c n h = ground arith
run_input-IsShown enter y x c n h = ground arith
run_input-IsShown resize y x c n h = absurd (n refl)
run_input-IsShown (char k) y x c n h = ground arith
run_input-IsShown no_key y x c n h = h

-- A resize keeps the line and empties both windows: a line begun before it is no longer shown.
pub resize_hides :
    (y x : ℕ) (c : ChatCurses)
    → c.line_buffer ≢ []
    → let d = (run_input resize y x c).0 in
      (d.line_buffer ≡ c.line_buffer) × (d.upper ≡ []) × ¬ IsShown d
unfolding run_input update_size
resize_hides y x c begun = (refl, refl, λ s. begun (cc))

resize_shows :
    (y x : ℕ) (c : ChatCurses)
    → IsShown (run_input resize y x c).0 ↔ ((resize ≢ resize) ⊎ (c.line_buffer ≡ []))
unfolding run_input update_size
resize_shows y x c =
    (λ shown. inr (sym shown), λ h. elim h [ inl n ↦ absurd (n refl) | inr e ↦ sym e ])

is_resize : (k : Key) → (k ≡ resize) ⊎ (k ≢ resize)
is_resize (char k) = inr (λ e. cc)
is_resize delete_char = inr (λ e. cc)
is_resize backspace = inr (λ e. cc)
is_resize enter = inr (λ e. cc)
is_resize resize = inl refl
is_resize no_key = inr (λ e. cc)

-- If the lower window shows the line being typed, it does so after a key if and only if the key is no
-- resize or no line has been begun.
pub run_input-IsShown_iff :
    (k : Key) (y x : ℕ) (c : ChatCurses)
    → IsShown c
    → IsShown (run_input k y x c).0 ↔ ((k ≢ resize) ⊎ (c.line_buffer ≡ []))
run_input-IsShown_iff k y x c h = elim (is_resize k) [
  | inl e ↦ rw e (resize_shows y x c)
  | inr n ↦ (λ _. inl n, λ _. run_input-IsShown k y x c n h)
]
