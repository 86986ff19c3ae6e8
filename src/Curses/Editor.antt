-- ===== src/Curses/Editor.antt =====
-- The window against a plain line editor: a stack of at most 26 characters, the lines completed, and
-- those of them that came after the last resize.
use goby3_examples.Base.{
  ℕ, ◌≡◌, refl, sym, ap, ◌∙◌, Bool, true, false, ◌&&◌, not, List, [], ◌∷◌, ◌++◌, map, init, length,
  length-append, append_assoc, append-nil, ltb, ◌==◌, if◌then◌else◌, Bool-cases, inl, inr, arith,
}
use goby3_examples.Base.Text.{Text, codes, to_string}
use goby3_examples.Curses.{
  ChatCurses, Key, char, delete_char, backspace, enter, resize, no_key, max_line, isprint, is_empty,
  run_input, update_size, type_char, send_line, erase_last, post_message, post_line,
}

-- The characters of the line being typed, the last one first.
pub record Editor : Type 0 where
  pub stack : Text
  pub lines : List Text
  pub shown : List Text

abbrev pub backwards : Text → Text
backwards [] = []
backwards (k ∷ s) = backwards s ++ k ∷ []

abbrev pub pop : Text → Text
pop [] = []
pop (k ∷ s) = s

abbrev pub push : ℕ → Editor → Editor
push k e =
    if isprint k && ltb (length e.stack) max_line then record e { stack = k ∷ e.stack } else e

abbrev pub submit : Editor → Editor
submit e = record {
  stack = [];
  lines = e.lines ++ backwards e.stack ∷ [];
  shown = e.shown ++ backwards e.stack ∷ [];
}

abbrev pub press : Key → Editor → Editor
press (char k) e = if (k == b'\n') && not (is_empty e.stack) then submit e else push k e
press delete_char e = record e { stack = pop e.stack }
press backspace e = record e { stack = pop e.stack }
press enter e = if is_empty e.stack then e else submit e
press resize e = record e { shown = [] }
press no_key e = e

-- What `post_message` writes for a line.
abbrev pub posted : ℕ → Text → Text
posted id line = (codes "[" ++ to_string id ++ codes "]: " ++ line) ++ b'\n' ∷ []

-- A key, with the screen's size for a resize.
pub record Press : Type 0 where
  pub key : Key
  pub rows : ℕ
  pub columns : ℕ

-- The editor after the keys, from the first to the last.
abbrev pub press_all : List Press → Editor → Editor
press_all [] e = e
press_all (p ∷ ps) e = press_all ps (press p.key e)

-- The calls of `run_input` for the keys, and the lines that are not empty, as the caller tests.
pub run_keys : List Press → ChatCurses → ChatCurses × List Text
run_keys [] c = (c, [])
run_keys (p ∷ ps) c =
    let (d, line) = run_input p.key p.rows p.columns c in
    let (last, lines) = run_keys ps d in (last, if is_empty line then lines else line ∷ lines)

pub record Matches (c : ChatCurses) (e : Editor) : Type 0 where
  pub buffer : c.line_buffer ≡ backwards e.stack
  pub window : c.upper ≡ map (posted c.id) e.shown

init-snoc : (s : Text) (k : ℕ) → init (s ++ k ∷ []) ≡ s
init-snoc [] k = refl
init-snoc (x ∷ []) k = refl
init-snoc (x ∷ y ∷ s) k = ap (λ t. x ∷ t) (init-snoc (y ∷ s) k)

length-backwards : (s : Text) → length (backwards s) ≡ length s
length-backwards [] = refl
length-backwards (k ∷ s) = omega (arith, length-append (backwards s) (k ∷ []), length-backwards s)

is_empty-snoc : (s : Text) (k : ℕ) → is_empty (s ++ k ∷ []) ≡ false
is_empty-snoc [] k = refl
is_empty-snoc (x ∷ s) k = refl

is_empty-backwards : (s : Text) → is_empty (backwards s) ≡ is_empty s
is_empty-backwards [] = refl
is_empty-backwards (k ∷ s) = is_empty-snoc (backwards s) k

map-snoc :
    (f : Text → Text) (xs : List Text) (x : Text) → map f (xs ++ x ∷ []) ≡ map f xs ++ f x ∷ []
map-snoc f [] x = refl
map-snoc f (y ∷ xs) x = ap (λ t. f y ∷ t) (map-snoc f xs x)

-- What one key does to a matching pair: the line that it completes, if any, is the editor's new one.
record Follows (r : ChatCurses × Text) (e f : Editor) : Type 0 where
  after : Matches r.0 f
  line : f.lines ≡ e.lines ++ (if is_empty r.1 then [] else r.1 ∷ [])

stays : (c : ChatCurses) (e : Editor) → Matches c e → Follows (c, []) e e
stays c e h = record { after = h; line = sym (append-nil e.lines) }

erase-backwards :
    (b s : Text) → b ≡ backwards s → (if is_empty b then [] else init b) ≡ backwards (pop s)
erase-backwards b [] h = rw h refl
erase-backwards b (k ∷ s) h = rw (h, is_empty-snoc (backwards s) k) (init-snoc (backwards s) k)

pops :
    (c : ChatCurses) (e : Editor)
    → Matches c e
    → Follows (erase_last c) e (record e { stack = pop e.stack })
unfolding erase_last
pops c e h = record {
  after = record { buffer = erase-backwards c.line_buffer e.stack h.buffer; window = h.window };
  line = sym (append-nil e.lines);
}

submits :
    (c : ChatCurses) (e : Editor)
    → is_empty e.stack ≡ false
    → Matches c e
    → Follows (send_line c) e (submit e)
unfolding send_line post_message post_line
submits c e full h = record {
  after = record {
    buffer = refl;
    window = rw (h.window, h.buffer) (sym (map-snoc (posted c.id) e.shown (backwards e.stack)));
  };
  line = rw (h.buffer, is_empty-backwards e.stack, full) refl;
}

pushes : (k : ℕ) (c : ChatCurses) (e : Editor) → Matches c e → Follows (type_char k c) e (push k e)
unfolding type_char
pushes k c e h =
    let same : length c.line_buffer ≡ length e.stack = rw h.buffer (length-backwards e.stack) in
    elim (Bool-cases (isprint k && ltb (length e.stack) max_line)) [
      | inl fits ↦
          rw (same, fits)
            (record {
              after = record { buffer = ap (λ t. t ++ k ∷ []) h.buffer; window = h.window };
              line = sym (append-nil e.lines);
            })
      | inr full ↦ rw (same, full) (stays c e h)
    ]

follows :
    (k : Key) (y x : ℕ) (c : ChatCurses) (e : Editor)
    → Matches c e
    → Follows (run_input k y x c) e (press k e)
unfolding run_input update_size
follows delete_char y x c e h = pops c e h
follows backspace y x c e h = pops c e h
follows enter y x c e h =
    let same : is_empty c.line_buffer ≡ is_empty e.stack =
      rw h.buffer (is_empty-backwards e.stack) in
    elim (Bool-cases (is_empty e.stack)) [
      | inl none_typed ↦ rw (same, none_typed) (stays c e h)
      | inr begun ↦ rw (same, begun) (submits c e begun h)
    ]
follows resize y x c e h = record {
  after = record { buffer = h.buffer; window = refl };
  line = sym (append-nil e.lines);
}
follows (char k) y x c e h =
    let same : is_empty c.line_buffer ≡ is_empty e.stack =
      rw h.buffer (is_empty-backwards e.stack) in
    elim (Bool-cases ((k == b'\n') && not (is_empty e.stack))) [
      | inl ends ↦ rw (same, ends) (submits c e (ground arith) h)
      | inr goes_on ↦ rw (same, goes_on) (pushes k c e h)
    ]
follows no_key y x c e h = stays c e h

append-if :
    (xs ys : List Text) (b : Bool) (x : Text)
    → (xs ++ (if b then [] else x ∷ [])) ++ ys ≡ xs ++ (if b then ys else x ∷ ys)
append-if xs ys true x = ap (λ t. t ++ ys) (append-nil xs)
append-if xs ys false x = append_assoc xs (x ∷ []) ys

-- From a window that matches an editor, over any keys and resizes: the line being typed is the
-- editor's, the lines that `run_input` returns are, in order, the ones that the editor completes,
-- and the upper window shows each of them that came after the last resize, behind the modem's id.
pub run_keys-press_all :
    (ps : List Press) (c : ChatCurses) (e : Editor)
    → Matches c e
    → Matches (run_keys ps c).0 (press_all ps e)
      × (e.lines ++ (run_keys ps c).1 ≡ (press_all ps e).lines)
unfolding run_keys
run_keys-press_all [] c e h = (h, append-nil e.lines)
run_keys-press_all (p ∷ ps) c e h =
    let (d, line) = run_input p.key p.rows p.columns c in
    let f = follows p.key p.rows p.columns c e h in
    let (m, ls) = run_keys-press_all ps d (press p.key e) f.after in
    (
      m,
      sym (append-if e.lines (run_keys ps d).1 (is_empty line) line)
          ∙ ap (λ t. t ++ (run_keys ps d).1) (sym f.line)
          ∙ ls,
    )
