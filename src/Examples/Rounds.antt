-- ===== src/Examples/Rounds.antt =====
-- The I/O applications over the threads of `Io`, with a line between equal paths, and a server on
-- the default port.
use goby3_examples.Base.{
  ◌≡◌, refl, ◌≢◌, ap, Bool, true, false, Option, some, none, [], ◌∷◌, if◌then◌else◌, Bool-cases,
  inl, inr,
}
use goby3_examples.Base.Text.{Text, codes, text_eq, text_eq_refl, text_eq→eq}
use goby3_examples.IoExamples.{IoData, Line, Server, message}
use goby3_examples.IoExamples.Carrying.{Lines, LineLaws}
use goby3_examples.IoExamples.Logs.{tcp_round, udp_round, cobs_round, line_of}
use goby3_examples.IoExamples.Answers.{logs_of, cobs_logs_of, two_requests, loop-logs}
use goby3_examples.IoExamples.Connected.{request_from}
use goby3_examples.Examples.PubSub.{transporter, transporter_laws}
use goby3_examples.Examples.Io.{threads, laws}

abbrev same_path : Option Text → Option Text → Bool
same_path (some a) (some b) = text_eq a b
same_path _ _ = false

abbrev lines : Lines
lines = record { crosses = λ a b d. if same_path a.port b.port then message d.bytes ∷ [] else [] }

same_path_refl : (a : Line) (path : Text) → a.port ≡ some path → same_path a.port a.port ≡ true
same_path_refl a path e = rw e (text_eq_refl path)

same_path-eq : (a b : Option Text) → same_path a b ≡ true → a ≡ b
same_path-eq none b h = cc
same_path-eq (some a) none h = cc
same_path-eq (some a) (some b) h = ap some (text_eq→eq a b h)

joined :
    (a b : Line) (path : Text) (d : IoData)
    → a.port ≡ some path
    → b ≡ a
    → lines.crosses a b d ≡ message d.bytes ∷ []
joined a b path d e same = rw (same, same_path_refl a path e) refl

apart : (a b : Line) (d : IoData) → a.port ≢ b.port → lines.crosses a b d ≡ []
apart a b d differs = elim (Bool-cases (same_path a.port b.port)) [
  | inl e ↦ absurd (differs (same_path-eq a.port b.port e))
  | inr e ↦ rw e refl
]

line_laws : LineLaws lines
line_laws = record { joined = joined; apart = apart }

abbrev elsewhere : Option Server
elsewhere = some (record { bind_port = some 4000 })

-- Requests and answers, with room for three more publications in a chain.
loop-logs_example :
    let request = codes "Request" in
    let response = codes "Response" in
    let of_two = two_requests transporter threads lines transporter_laws laws line_laws 3 in
    (logs_of (tcp_round transporter threads lines 3 none)
      ≡ of_two (line_of request) (line_of response))
    × (logs_of (udp_round transporter threads lines 3 none) ≡ of_two request response)
    × (cobs_logs_of (cobs_round transporter threads lines 3 none) ≡ (
      request_from transporter threads lines transporter_laws laws line_laws 3 1 request ∷ [],
      message response ∷ [],
      message (codes "ToPTY") ∷ [],
      message (codes "ToSerial") ∷ [],
    ))
loop-logs_example = loop-logs transporter threads lines transporter_laws laws line_laws 3 none
