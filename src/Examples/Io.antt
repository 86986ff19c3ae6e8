-- ===== src/Examples/Io.antt =====
-- I/O threads that number the clients by their ports, and a server on another port.
use goby3_examples.Base.{
  ◌≢◌, ℕ, ◌≡◌, refl, ap, Bool, true, false, ◌&&◌, Option, some, none, List, [], ◌∷◌, ◌==◌, ==_iff,
  if◌then◌else◌, Bool-cases, inl, inr, arith,
}
use goby3_examples.Base.Text.{Text, codes, text_eq, text_eq_refl}
use goby3_examples.IoExamples.{IoData, Endpoint, Client, server_addr, message}
use goby3_examples.IoExamples.Tcp
use goby3_examples.IoExamples.Udp
use goby3_examples.IoExamples.Cobs
use goby3_examples.IoExamples.Can
use goby3_examples.IoExamples.Pty
use goby3_examples.IoExamples.Threads.{Threads, IsConnected, ThreadLaws}

abbrev pub is_server : Option Text → Bool
is_server none = false
is_server (some a) = text_eq a server_addr

abbrev pub same_port : Option ℕ → Option ℕ → Bool
same_port none o = false
same_port (some n) none = false
same_port (some n) (some m) = n == m

abbrev pub reaches : Option ℕ → Client → Bool
reaches p c = is_server c.remote_address && same_port c.remote_port p

abbrev pub endpoint : ℕ → Endpoint
endpoint i = record { addr = codes "127.0.0.1"; port = i }

abbrev pub for_client : ℕ → Option Endpoint → Text → List IoData
for_client i none bytes = []
for_client i (some e) bytes = if e.port == i then message bytes ∷ [] else []

abbrev pub threads : Threads
threads = record {
  to_server = λ p i c d.
      if reaches p c
      then record { bytes = d.bytes; src = some (endpoint i); dest = none } ∷ []
      else [];
  to_client = λ p i c d. for_client i d.dest d.bytes;
}

same_port_iff : (o p : Option ℕ) → same_port o p ≡ true → o ≡ p
same_port_iff none p h = cc
same_port_iff (some n) none h = cc
same_port_iff (some n) (some m) h = ap some ((==_iff n m).0 h)

same_port_refl : (p : Option ℕ) → p ≢ none → same_port p p ≡ true
same_port_refl none h = absurd (h refl)
same_port_refl (some n) h = (==_iff n n).1 refl

connected : (p : Option ℕ) (c : Client) → IsConnected p c → reaches p c ≡ true
connected p c ok =
    rw (ok.same_address, text_eq_refl server_addr, ok.same_port) (same_port_refl p ok.bound)

and-right : (a b : Bool) → (a && b) ≡ true → b ≡ true
and-right a b h = ground arith

misses :
    (p : Option ℕ) (c : Client) (ds : List IoData)
    → c.remote_port ≢ p
    → (if reaches p c then ds else []) ≡ []
misses p c ds differs = elim (Bool-cases (reaches p c)) [
  | inl e ↦
      absurd (differs (same_port_iff c.remote_port p (and-right (is_server c.remote_address) _ e)))
  | inr e ↦ rw e refl
]

differ : (i j : ℕ) (bytes : Text) → j ≢ i → for_client i (some (endpoint j)) bytes ≡ []
differ i j bytes h = ground (arith, ==_iff j i)

same : (i : ℕ) (bytes : Text) → for_client i (some (endpoint i)) bytes ≡ message bytes ∷ []
same i bytes = ground (arith, ==_iff i i)

pub laws : ThreadLaws threads
laws = record {
  source = endpoint;
  source_inj = λ i j e. ap (λ x. x.port) e;
  arrives = λ p i c d ok. rw (connected p c ok) refl;
  refused = λ p i c d differs. misses p c _ differs;
  returns = λ p i c d ok e. rw e (same i d.bytes);
  elsewhere = λ p i j c d e differs. rw e (differ i j d.bytes differs);
}

abbrev pub own_port : Udp.Config
own_port = record {
  server = some (record { bind_port = some 4000 });
  client1 = none;
  client2 = none;
}

abbrev pub tcp : Tcp.Config
tcp = record { server = none; client1 = none; client2 = none }

abbrev pub cobs : Cobs.Config
cobs = record { server = none; client = none; pty = none; serial = none }

abbrev pub can : Can.Config
can = record { can_config = some (record { interface = some (codes "can0"); filter = [] }) }

abbrev pub pty : Pty.Config
pty = record { pty_config = none }
