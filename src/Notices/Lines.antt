-- ===== src/Notices/Lines.antt =====
-- The lines that a notice is printed in.
use goby3_examples.Base.{
  ◌≡◌, refl, ap, Bool, true, false, List, [], ◌∷◌, ◌++◌, map, append_assoc, if◌then◌else◌,
}
use goby3_examples.Base.Text.{Text, codes}
use goby3_examples.Base.Split.{split, Without, joined, split-joined, lacks, lacks-Without}
use goby3_examples.Notices.{
  Protobuf, Application, publishing, same_group, subscribing, broadcasting, unsubscribing, Notice,
  report_acked, report_expired, subscription_acked, subscription_expired, printed,
}

-- `ShortDebugString` prints one line.
pub record OneLine (p : Protobuf) : Type 0 where
  pub report : (r : p.Report) → Without b'\n' (p.report_string r)
  pub subscription : (s : p.Subscription) → Without b'\n' (p.subscription_string s)
  pub ack : (a : p.AckData) → Without b'\n' (p.ack_string a)
  pub expire : (e : p.ExpireData) → Without b'\n' (p.expire_string e)

-- Whether a program is told: only one that publishes of its reports, only one that subscribes of
-- its subscription.
abbrev pub publishes : Application → Bool
publishes publishing = true
publishes same_group = true
publishes _ = false

abbrev pub subscribes : Application → Bool
subscribes publishing = false
subscribes _ = true

abbrev one_when : Bool → List Text → List (List Text)
one_when b ls = if b then ls ∷ [] else []

module _ (p : Protobuf) where
  abbrev pub lines : Application → Notice p → List (List Text)
  lines a (report_acked nav ack) = one_when (publishes a) (
      codes "Received acknowledgment:"
      ∷ (codes "\t" ++ p.ack_string ack)
      ∷ codes "for message:"
      ∷ (codes "\t" ++ p.report_string nav)
      ∷ []
      ∷ [])
  lines a (report_expired nav expire) = one_when (publishes a) (
      codes "Received expiration notice:"
      ∷ (codes "\t" ++ p.expire_string expire)
      ∷ codes "for subscription:"
      ∷ (codes "\t" ++ p.report_string nav)
      ∷ []
      ∷ [])
  lines a (subscription_acked sub ack) = one_when (subscribes a) (
      codes "Received acknowledgment:"
      ∷ (codes "\t" ++ p.ack_string ack)
      ∷ codes "for subscription:"
      ∷ (codes "\t" ++ p.subscription_string sub)
      ∷ []
      ∷ [])
  lines a (subscription_expired sub expire) = one_when (subscribes a) (
      codes "Received expiration notice:"
      ∷ (codes "\t" ++ p.expire_string expire)
      ∷ codes "for subscription:"
      ∷ (codes "\t" ++ p.subscription_string sub)
      ∷ []
      ∷ [])

  notice-joined :
      (heading data_string subject text : Text)
      → (heading ++ codes "\n\t")
          ++ data_string
          ++ (codes "\n" ++ (subject ++ codes "\n\t"))
          ++ text
          ++ codes "\n"
        ≡ joined b'\n' heading
            ((codes "\t" ++ data_string) ∷ subject ∷ (codes "\t" ++ text) ∷ [] ∷ [])
  notice-joined heading data_string subject text = simp append_assoc

  split-notice :
      (heading data_string subject text : Text)
      → lacks b'\n' heading ≡ true
      → Without b'\n' data_string
      → lacks b'\n' subject ≡ true
      → Without b'\n' text
      → split b'\n' (
          (heading ++ codes "\n\t")
          ++ data_string
          ++ (codes "\n" ++ (subject ++ codes "\n\t"))
          ++ text
          ++ codes "\n")
        ≡ heading ∷ (codes "\t" ++ data_string) ∷ subject ∷ (codes "\t" ++ text) ∷ [] ∷ []
  split-notice heading data_string subject text h d s t =
      rw (notice-joined heading data_string subject text) (
        split-joined b'\n' heading
          ((codes "\t" ++ data_string) ∷ subject ∷ (codes "\t" ++ text) ∷ [] ∷ [])
          (lacks-Without b'\n' heading h)
          ((refl, d), (lacks-Without b'\n' subject s, ((refl, t), (tt, tt)))))

  module _ (one : OneLine p) where
    message_acked :
        (nav : p.Report) (ack : p.AckData)
        → map (split b'\n') (printed p publishing (report_acked nav ack))
          ≡ lines publishing (report_acked nav ack)
    unfolding printed
    message_acked nav ack =
        ap (λ ls. ls ∷ [])
          (split-notice (codes "Received acknowledgment:") (p.ack_string ack) (codes "for message:")
            (p.report_string nav) refl (one.ack ack) refl (one.report nav))

    message_expired :
        (nav : p.Report) (expire : p.ExpireData)
        → map (split b'\n') (printed p publishing (report_expired nav expire))
          ≡ lines publishing (report_expired nav expire)
    unfolding printed
    message_expired nav expire =
        ap (λ ls. ls ∷ [])
          (split-notice (codes "Received expiration notice:") (p.expire_string expire)
            (codes "for subscription:") (p.report_string nav) refl (one.expire expire) refl
            (one.report nav))

    subscribed :
        (sub : p.Subscription) (ack : p.AckData)
        → map (split b'\n') (printed p subscribing (subscription_acked sub ack))
          ≡ lines subscribing (subscription_acked sub ack)
    unfolding printed
    subscribed sub ack =
        ap (λ ls. ls ∷ [])
          (split-notice (codes "Received acknowledgment:") (p.ack_string ack)
            (codes "for subscription:") (p.subscription_string sub) refl (one.ack ack) refl
            (one.subscription sub))

    subscribe_expired :
        (sub : p.Subscription) (expire : p.ExpireData)
        → map (split b'\n') (printed p subscribing (subscription_expired sub expire))
          ≡ lines subscribing (subscription_expired sub expire)
    unfolding printed
    subscribe_expired sub expire =
        ap (λ ls. ls ∷ [])
          (split-notice (codes "Received expiration notice:") (p.expire_string expire)
            (codes "for subscription:") (p.subscription_string sub) refl (one.expire expire) refl
            (one.subscription sub))

    -- A notice is printed by the programs that publish, if it is about a report, and by those that
    -- subscribe, if it is about the subscription. If what `ShortDebugString` returns has no end of
    -- line, what is printed, taken apart at the ends of lines, is the four lines of the notice. The
    -- one of an expired report names a subscription.
    pub split-printed :
        (a : Application) (n : Notice p) → map (split b'\n') (printed p a n) ≡ lines a n
    unfolding printed
    split-printed publishing (report_acked nav ack) = message_acked nav ack
    split-printed publishing (report_expired nav expire) = message_expired nav expire
    split-printed publishing (subscription_acked sub ack) = refl
    split-printed publishing (subscription_expired sub expire) = refl
    split-printed same_group (report_acked nav ack) = message_acked nav ack
    split-printed same_group (report_expired nav expire) = message_expired nav expire
    split-printed same_group (subscription_acked sub ack) = subscribed sub ack
    split-printed same_group (subscription_expired sub expire) = subscribe_expired sub expire
    split-printed subscribing (report_acked nav ack) = refl
    split-printed subscribing (report_expired nav expire) = refl
    split-printed subscribing (subscription_acked sub ack) = subscribed sub ack
    split-printed subscribing (subscription_expired sub expire) = subscribe_expired sub expire
    split-printed broadcasting (report_acked nav ack) = refl
    split-printed broadcasting (report_expired nav expire) = refl
    split-printed broadcasting (subscription_acked sub ack) = subscribed sub ack
    split-printed broadcasting (subscription_expired sub expire) = subscribe_expired sub expire
    split-printed unsubscribing (report_acked nav ack) = refl
    split-printed unsubscribing (report_expired nav expire) = refl
    split-printed unsubscribing (subscription_acked sub ack) = subscribed sub ack
    split-printed unsubscribing (subscription_expired sub expire) = subscribe_expired sub expire
