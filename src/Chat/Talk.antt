-- ===== src/Chat/Talk.antt =====
-- Both ends of a chat, with the messages of each on their way to the other.
use goby3_examples.Base.{
  ℕ, ◌≤◌, ◌⊎◌, length, ◌≡◌, false, none, some, List, [], ◌∷◌, ◌++◌, All, All-append, All-Among,
  Among,
}
use goby3_examples.Base.Int.{ℤ, pos, ◌≤ℤ◌}
use goby3_examples.Curses.{ChatCurses}
use goby3_examples.Chat.{
  ChatMessage, Chat, Settings, Signal, Round, initiate_transmission, data_received, ack_received,
  start, round,
}
use goby3_examples.Chat.Session.{IsMessage, IsSound, round-IsSound, start-IsSound}

-- What each end has been handed by its queue manager, and what it has been told is acknowledged.
pub record Talk : Type 0 where
  pub a : Chat
  pub b : Chat
  pub a_heard : List ChatMessage
  pub b_heard : List ChatMessage

-- The bounds of chat.proto.
abbrev pub IsId : ℤ → Type 0
IsId id = (pos 0 ≤ℤ id) × (id ≤ℤ pos 30)

abbrev pub MessageFits : ChatMessage → Type 0
MessageFits m = IsId m.destination × IsId m.source × (length m.telegram ≤ 26)

-- The link brings an end what the other one has pushed, if DCCL can encode it and it is addressed to
-- that end or to all (0), and acks of what it has pushed itself; any number of times, in any order,
-- or never.
abbrev pub Carried : ℤ → List ChatMessage → List ChatMessage → Signal → Type 0
Carried my_id theirs ours (initiate_transmission m) = Unit
Carried my_id theirs ours (data_received m) =
    Among m theirs × ((m.destination ≡ my_id) ⊎ (m.destination ≡ pos 0)) × MessageFits m
Carried my_id theirs ours (ack_received ack m) = Among m ours

abbrev data_of : Signal → List ChatMessage
data_of (data_received m) = m ∷ []
data_of _ = []

-- The messages that the signals of a round hand over.
abbrev pub data_in : List Signal → List ChatMessage
data_in [] = []
data_in (s ∷ ss) = data_of s ++ data_in ss

-- A round of one end, whose loop has not ended.
pub data Step (t : Talk) : Talk → Type 0 where
  at_a :
      (r : Round)
      → t.a.exit_code ≡ none
      → All (Carried t.a.my_id t.b.pushed t.a.pushed) r.signals
      → Step t (record t { a = round r t.a; a_heard = t.a_heard ++ data_in r.signals })
  at_b :
      (r : Round)
      → t.b.exit_code ≡ none
      → All (Carried t.b.my_id t.a.pushed t.b.pushed) r.signals
      → Step t (record t { b = round r t.b; b_heard = t.b_heard ++ data_in r.signals })

pub data Steps (t : Talk) : Talk → Type 0 where
  stay : Steps t t
  later : {u v : Talk} → Steps t u → Step u v → Steps t v

abbrev pub begin : Chat → Chat → Talk
begin a b = record { a = a; b = b; a_heard = []; b_heard = [] }

data_in-All :
    (P : ChatMessage → Type 0) (my_id : ℤ) (theirs ours : List ChatMessage) (ss : List Signal)
    → All P theirs
    → All (Carried my_id theirs ours) ss
    → All P (data_in ss)
data_in-All P my_id theirs ours [] h c = tt
data_in-All P my_id theirs ours (initiate_transmission m ∷ ss) h c =
    data_in-All P my_id theirs ours ss h c.1
data_in-All P my_id theirs ours (data_received m ∷ ss) h c =
    (All-Among P theirs m h c.0.0, data_in-All P my_id theirs ours ss h c.1)
data_in-All P my_id theirs ours (ack_received ack m ∷ ss) h c =
    data_in-All P my_id theirs ours ss h c.1

record AreSound (mine buddy : ℤ) (t : Talk) : Type 0 where
  a_end : IsSound mine buddy t.a
  b_end : IsSound buddy mine t.b
  to_a : All (IsMessage buddy mine) t.a_heard
  to_b : All (IsMessage mine buddy) t.b_heard

module _ {mine buddy : ℤ} where
  Step-AreSound : {t u : Talk} → AreSound mine buddy t → Step t u → AreSound mine buddy u
  Step-AreSound {t} h (at_a r running carried) = record {
    a_end = round-IsSound r t.a h.a_end;
    b_end = h.b_end;
    to_a =
        All-append _ t.a_heard _ h.to_a
          (data_in-All _ t.a.my_id t.b.pushed t.a.pushed r.signals h.b_end.sent carried);
    to_b = h.to_b;
  }
  Step-AreSound {t} h (at_b r running carried) = record {
    a_end = h.a_end;
    b_end = round-IsSound r t.b h.b_end;
    to_a = h.to_a;
    to_b =
        All-append _ t.b_heard _ h.to_b
          (data_in-All _ t.b.my_id t.a.pushed t.b.pushed r.signals h.a_end.sent carried);
  }

  Steps-AreSound : {t u : Talk} → AreSound mine buddy t → Steps t u → AreSound mine buddy u
  Steps-AreSound h stay = h
  Steps-AreSound h (later steps last) = Step-AreSound (Steps-AreSound h steps) last

-- Two ends are started with each other's ids and with empty lines. Through any rounds of theirs,
-- interleaved in any order, whatever keys, signals and exceptions they meet, with a link that may
-- lose, double and reorder messages: each message that an end is handed comes from its buddy, is
-- addressed to it, is not empty, and is of at most 26 printable characters.
pub talk-IsMessage :
    (rows columns : ℕ) (s z : Settings) (window : ChatCurses) {a b : Chat} (t : Talk)
    → window.line_buffer ≡ []
    → s.my_id ≡ z.buddy_id
    → s.buddy_id ≡ z.my_id
    → start false rows columns s window ≡ some a
    → start false rows columns z window ≡ some b
    → Steps (begin a b) t
    → All (IsMessage s.buddy_id s.my_id) t.a_heard × All (IsMessage z.buddy_id z.my_id) t.b_heard
talk-IsMessage rows columns s z window {a} {b} t e ids ids' ha hb steps =
    let other : IsSound s.buddy_id s.my_id b =
      rw (ids, ids') (start-IsSound rows columns z window e hb) in
    let h : AreSound s.my_id s.buddy_id t =
      Steps-AreSound
        (record {
          a_end = start-IsSound rows columns s window e ha;
          b_end = other;
          to_a = tt;
          to_b = tt;
        })
        steps in
    (h.to_a, rw (ids, ids') at h.to_b)
