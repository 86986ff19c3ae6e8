-- ===== src/IoExamples/Carrying.antt =====
-- How an application's I/O threads take up what it publishes, and what they hand in for it.
--
-- Clients are numbered in the order of their launch, from 1 on. `Threads` is what Goby's threads of
-- servers and clients do. The threads of serial ports are the record `Lines`: a serial port and a
-- pseudo-terminal with the same path are the two ends of one line.
use goby3_examples.Base.{
  ℕ, ◌+◌, ◌≡◌, ◌≢◌, Option, none, some, List, [], ◌∷◌, ◌++◌, map, if◌then◌else◌,
}
use goby3_examples.Base.Text.{Text, text_eq}
use goby3_examples.PubSub.{Publication}
use goby3_examples.IoExamples.{
  IoData, Line, Mail, io_data, server_event, can_frame, publish, message, Launch, server_thread,
  client_thread, pty_thread, serial_thread,
}
use goby3_examples.IoExamples.Threads.{Threads}

-- What the thread of one line hands in of what the thread of another is given to send.
pub record Lines : Type 0 where
  pub crosses : Line → Line → IoData → List IoData

pub record LineLaws (ls : Lines) : Type 0 where
  pub joined :
      (a b : Line) (path : Text) (d : IoData)
      → a.port ≡ some path
      → b ≡ a
      → ls.crosses a b d ≡ message d.bytes ∷ []
  pub apart : (a b : Line) (d : IoData) → a.port ≢ b.port → ls.crosses a b d ≡ []

-- The server's port, and its two groups.
abbrev pub server_of : List Launch → Option (Option ℕ × Text × Text)
server_of [] = none
server_of (server_thread s i o ∷ ls) = some (s.bind_port, i, o)
server_of (_ ∷ ls) = server_of ls

abbrev pub hand_in : Text → List IoData → List (Publication Mail)
hand_in group ds = map (publish group) ds

module _ (t : Threads) (lines : Lines) where
  -- The clients' data to the server.
  abbrev pub to_server : Option ℕ → Text → ℕ → List Launch → Text → IoData → List (Publication Mail)
  to_server port server_in n [] group d = []
  to_server port server_in n (client_thread c i o ∷ ls) group d =
      (if text_eq group o then hand_in server_in (t.to_server port n c d) else [])
      ++ to_server port server_in (n + 1) ls group d
  to_server port server_in n (_ ∷ ls) group d = to_server port server_in n ls group d

  -- The server's data to the clients.
  abbrev pub to_clients : Option ℕ → ℕ → List Launch → IoData → List (Publication Mail)
  to_clients port n [] d = []
  to_clients port n (client_thread c i o ∷ ls) d =
      hand_in i (t.to_client port n c d) ++ to_clients port (n + 1) ls d
  to_clients port n (_ ∷ ls) d = to_clients port n ls d

  abbrev pub served :
      Option (Option ℕ × Text × Text) → List Launch → Text → IoData → List (Publication Mail)
  served none ls group d = []
  served (some (port, server_in, server_out)) ls group d =
      to_server port server_in 1 ls group d
      ++ (if text_eq group server_out then to_clients port 1 ls d else [])

  -- What one end of a line is given, to the ends of the other kind.
  abbrev pub to_serial : Line → List Launch → IoData → List (Publication Mail)
  to_serial a [] d = []
  to_serial a (serial_thread b i o ∷ ls) d = hand_in i (lines.crosses a b d) ++ to_serial a ls d
  to_serial a (_ ∷ ls) d = to_serial a ls d

  abbrev pub to_pty : Line → List Launch → IoData → List (Publication Mail)
  to_pty a [] d = []
  to_pty a (pty_thread b i o ∷ ls) d = hand_in i (lines.crosses a b d) ++ to_pty a ls d
  to_pty a (_ ∷ ls) d = to_pty a ls d

  abbrev pub crossed : List Launch → List Launch → Text → IoData → List (Publication Mail)
  crossed all [] group d = []
  crossed all (pty_thread a i o ∷ ls) group d =
      (if text_eq group o then to_serial a all d else []) ++ crossed all ls group d
  crossed all (serial_thread a i o ∷ ls) group d =
      (if text_eq group o then to_pty a all d else []) ++ crossed all ls group d
  crossed all (_ ∷ ls) group d = crossed all ls group d

  abbrev pub carry_mail : List Launch → Text → Mail → List (Publication Mail)
  carry_mail ls group (io_data d) = served (server_of ls) ls group d ++ crossed ls ls group d
  carry_mail ls group (server_event e) = []
  carry_mail ls group (can_frame f) = []

  abbrev pub carry : List Launch → Publication Mail → List (Publication Mail)
  carry ls p = carry_mail ls p.group p.message
