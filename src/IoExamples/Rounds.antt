-- ===== src/IoExamples/Rounds.antt =====
-- What two clients receive in a round.
use goby3_examples.Base.{
  each, each-append, ℕ, ◌≡◌, refl, ap, ◌≢◌, ◌∙◌, Option, some, none, List, [], ◌∷◌, ◌++◌, map,
  append-nil,
}
use goby3_examples.Base.Text.{Text}
use goby3_examples.IoExamples.{IoData, Client, message}
use goby3_examples.IoExamples.Threads.{Threads, IsConnected, ThreadLaws, round}

-- Each request is answered by the given bytes, to where it came from.
abbrev pub Replies : (IoData → List IoData) → Text → Type 0
Replies answer bytes =
    (d : IoData) → answer d ≡ record { bytes = bytes; src = none; dest = d.src } ∷ []

module _ (t : Threads) (l : ThreadLaws t) (answer : IoData → List IoData) (bytes : Text)
    (replies : Replies answer bytes) (p : Option ℕ) where
  own :
      (i : ℕ) (c : Client) (ms : List IoData)
      → IsConnected p c
      → each (t.to_client p i c) (each answer (each (t.to_server p i c) ms))
        ≡ map (λ _. message bytes) ms
  own i c [] ok = refl
  own i c (m ∷ ms) ok =
      let d : IoData = record { bytes = m.bytes; src = some (l.source i); dest = none } in
      rw
        (
          l.arrives p i c m ok,
          replies d,
          l.returns p i c (record { bytes = bytes; src = none; dest = d.src }) ok refl,
        )
        (ap (λ r. message bytes ∷ r) (own i c ms ok))

  others :
      (i j : ℕ) (c e : Client) (ms : List IoData)
      → IsConnected p e
      → j ≢ i
      → each (t.to_client p i c) (each answer (each (t.to_server p j e) ms)) ≡ []
  others i j c e [] ok differs = refl
  others i j c e (m ∷ ms) ok differs =
      let d : IoData = record { bytes = m.bytes; src = some (l.source j); dest = none } in
      rw
        (
          l.arrives p j e m ok,
          replies d,
          l.elsewhere p i j c (record { bytes = bytes; src = none; dest = d.src }) refl differs,
        )
        (others i j c e ms ok differs)

  nothing :
      (i : ℕ) (c : Client) (ms : List IoData) → c.remote_port ≢ p → each (t.to_server p i c) ms ≡ []
  nothing i c [] h = refl
  nothing i c (m ∷ ms) h = rw (l.refused p i c m h) (nothing i c ms h)

  -- Two connected clients each receive one reply for each of their requests.
  pub round_connected :
      (c1 c2 : Client) (sent1 sent2 : List IoData)
      → IsConnected p c1
      → IsConnected p c2
      → (round t answer p (c1, sent1) (c2, sent2) 1 c1 ≡ map (λ _. message bytes) sent1)
        × (round t answer p (c1, sent1) (c2, sent2) 2 c2 ≡ map (λ _. message bytes) sent2)
  round_connected c1 c2 sent1 sent2 ok1 ok2 =
      let from1 = each (t.to_server p 1 c1) sent1 in
      let from2 = each (t.to_server p 2 c2) sent2 in
      let split : (i : ℕ) (c : Client)
          → each (t.to_client p i c) (each answer (from1 ++ from2))
            ≡ each (t.to_client p i c) (each answer from1)
              ++ each (t.to_client p i c) (each answer from2) =
        λ i c.
          ap (each (t.to_client p i c)) (each-append answer from1 from2)
          ∙ each-append (t.to_client p i c) (each answer from1) (each answer from2) in
      (
        split 1 c1 ∙ rw (own 1 c1 sent1 ok1, others 1 2 c1 c2 sent2 ok2 (λ e. cc)) (append-nil _),
        split 2 c2 ∙ rw (own 2 c2 sent2 ok2, others 2 1 c2 c1 sent1 ok1 (λ e. cc)) refl,
      )

  -- With both clients aimed at another port, nobody receives anything.
  pub round_refused :
      (c1 c2 : Client) (sent1 sent2 : List IoData) (i : ℕ) (c : Client)
      → c1.remote_port ≢ p
      → c2.remote_port ≢ p
      → round t answer p (c1, sent1) (c2, sent2) i c ≡ []
  round_refused c1 c2 sent1 sent2 i c h1 h2 = rw (nothing 1 c1 sent1 h1, nothing 2 c2 sent2 h2) refl
