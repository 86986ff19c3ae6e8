-- ===== src/Queue/Loopback.antt =====
-- What the loopback of a transmission delivers.
use goby3_examples.Base.{
  ℕ, ◌≤◌, ◌≡◌, refl, ◌≢◌, ◌∙◌, ap, some, Among, List, [], ◌∷◌, ◌++◌, map, inl, length, arith,
}
use goby3_examples.Base.Int.{pos}
use goby3_examples.Base.Text.{Text, codes}
use goby3_examples.Modem.{ModemTransmission}
use goby3_examples.Queue.{
  Simple, QueueManager, QueueManagerConfig, Laws, fitting, Output, pushing, contents, requested,
  data_as_hex, received, pushes, receptions, first_frame,
}
use goby3_examples.Queue.QueueSimple
use goby3_examples.Queue.Multimessage

pub first_frame-some : (fs : List Text) → fs ≢ [] → (f : Text) × (first_frame fs ≡ some f)
first_frame-some [] h = absurd (h refl)
first_frame-some (f ∷ fs) h = (f, refl)

abbrev config : QueueManagerConfig
config = record { modem_id = pos 1; message_entry = codes "Simple" ∷ [] }

module _ (q : QueueManager) (l : Laws q) where
  -- A request for one frame, with a message waiting that fits: the transmission has a frame, and
  -- what it yields when it is received are the messages that fit.
  loopback :
      (s : q.State) (t : ModemTransmission) (room : ℕ) (ms : List Simple)
      → t.max_frame_bytes ≡ some (pos room)
      → t.max_num_frames ≡ some 1
      → fitting l.size room (l.contents s) ≡ ms
      → ms ≢ []
      → let r = q.handle_modem_data_request s t in
        (bytes : Text) × (first_frame r.1.frame ≡ some bytes)
        × ((q.handle_modem_receive r.0 r.1).1 ≡ ms)
  loopback s t room ms bytes one fit more =
      let r = q.handle_modem_data_request s t in
      let carries : l.carried r.1 ≡ ms = l.request-carried s t room bytes one ∙ fit in
      let (f, e) = first_frame-some r.1.frame (l.carried-frame r.1 (λ none_at_all. more (cc))) in
      (f, e, l.receive-carried r.0 r.1 ∙ carries)

  -- From the start, with the type configured, one message that `Simple` takes is all that is queued.
  queued_one :
      (m : Simple) (cfg : QueueManagerConfig)
      → Among (codes "Simple") cfg.message_entry
      → length m.telegram ≤ 30
      → l.contents (q.push_message m (q.set_cfg cfg q.init)) ≡ m ∷ []
  queued_one m cfg known short =
      l.push-contents m (q.set_cfg cfg q.init) (rw (l.set_cfg-names cfg q.init) known) short
      ∙ ap (λ xs. xs ++ m ∷ []) (l.set_cfg-contents cfg q.init ∙ l.init-contents)

  fitting_one : (m : Simple) → length m.telegram ≤ 30 → fitting l.size 32 (m ∷ []) ≡ m ∷ []
  fitting_one m short = ground (arith, l.size-bound m short)

  -- Over a queue manager that keeps to `Laws`, queue_simple runs to its end, and the one message
  -- that it receives is the one that it pushed.
  pub queue_simple_delivers :
      (out : List (Output q.State)) × (QueueSimple.main q ≡ some out)
      × (pushes out ≡ QueueSimple.hello ∷ [])
      × (receptions out ≡ pushes out)
  unfolding QueueSimple.main QueueSimple.finish
  queue_simple_delivers =
      let m = QueueSimple.hello in
      let s = q.push_message m (q.set_cfg (config) q.init) in
      let (bytes, e, got) =
        loopback s QueueSimple.request_msg 32 (m ∷ []) refl refl
          (rw (queued_one m config (inl refl) (omega arith)) (fitting_one m (omega arith)))
          (λ x. cc) in
      let r = q.handle_modem_data_request s QueueSimple.request_msg in
      (
        pushing m ∷ contents s ∷ requested r.1 ∷ data_as_hex bytes ∷ map received (m ∷ []),
        rw (e, got) refl,
        refl,
        refl,
      )
