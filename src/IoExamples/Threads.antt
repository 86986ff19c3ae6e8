-- ===== src/IoExamples/Threads.antt =====
-- A round of an application: its requests on their way to the server, and the answers back.
--
-- Goby's I/O threads carry the data. They are the record `Threads`, and `ThreadLaws` is what the
-- applications rely on.
use goby3_examples.Base.{each, ℕ, ◌≡◌, ◌≢◌, Option, some, none, List, [], ◌∷◌, ◌++◌}
use goby3_examples.IoExamples.{IoData, Endpoint, Client, server_addr}

-- What the server's thread hands in of the data that a client's thread is given to send, and what a
-- client's thread hands in of the data that the server's thread is given, for the port that the
-- server is bound to, the client's number and its configuration.
pub record Threads : Type 0 where
  pub to_server : Option ℕ → ℕ → Client → IoData → List IoData
  pub to_client : Option ℕ → ℕ → Client → IoData → List IoData

-- The client aims at the server.
pub record IsConnected (port : Option ℕ) (c : Client) : Type 0 where
  pub same_address : c.remote_address ≡ some server_addr
  pub same_port : c.remote_port ≡ port
  pub bound : port ≢ none

-- A connected client's data reach the server, with the client's own endpoint as the source; data
-- for another port do not. What the server sends to an endpoint reaches its client, and no other.
pub record ThreadLaws (t : Threads) : Type 0 where
  pub source : ℕ → Endpoint
  pub source_inj : (i j : ℕ) → source i ≡ source j → i ≡ j
  pub arrives :
      (p : Option ℕ) (i : ℕ) (c : Client) (d : IoData)
      → IsConnected p c
      → t.to_server p i c d ≡ record { bytes = d.bytes; src = some (source i); dest = none } ∷ []
  pub refused :
      (p : Option ℕ) (i : ℕ) (c : Client) (d : IoData)
      → c.remote_port ≢ p
      → t.to_server p i c d ≡ []
  pub returns :
      (p : Option ℕ) (i : ℕ) (c : Client) (d : IoData)
      → IsConnected p c
      → d.dest ≡ some (source i)
      → t.to_client p i c d ≡ record { bytes = d.bytes; src = none; dest = none } ∷ []
  pub elsewhere :
      (p : Option ℕ) (i j : ℕ) (c : Client) (d : IoData)
      → d.dest ≡ some (source j)
      → j ≢ i
      → t.to_client p i c d ≡ []

-- The answers that client `i` is handed, when two clients send and the server answers as given.
abbrev pub round :
    Threads
    → (IoData → List IoData)
    → Option ℕ
    → Client × List IoData
    → Client × List IoData
    → ℕ
    → Client
    → List IoData
round t answer p (c1, sent1) (c2, sent2) i c =
    let requests = each (t.to_server p 1 c1) sent1 ++ each (t.to_server p 2 c2) sent2 in
    each (t.to_client p i c) (each answer requests)
