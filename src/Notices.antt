-- ===== src/Notices.antt =====
-- What the programs between vehicles print when a report or a subscription of theirs is acknowledged,
-- or expires without an answer: src/intervehicle, in basic_publisher/publisher.cpp,
-- same_group/app.cpp, basic_subscriber/subscriber.cpp, broadcast/subscriber.cpp and
-- unsubscriber/unsubscriber.cpp.
--
-- Goby sets the callbacks off; `ShortDebugString` is Protobuf's, given for each type of message.
pub mod Lines
use goby3_examples.Base.{List, [], ◌∷◌, ◌++◌}
use goby3_examples.Base.Text.{Text, codes}

-- The messages that the callbacks take, with the text of each.
pub record Protobuf : Type 1 where
  pub Report : Type 0
  pub Subscription : Type 0
  pub AckData : Type 0
  pub ExpireData : Type 0
  pub report_string : Report → Text
  pub subscription_string : Subscription → Text
  pub ack_string : AckData → Text
  pub expire_string : ExpireData → Text

-- The two callbacks that a publisher is given for its reports, or a subscriber for its
-- subscription.
pub record Callbacks (M A E : Type 0) : Type 0 where
  pub acked : M → A → Text
  pub expired : M → E → Text

pub data Application : Type 0 where
  publishing same_group subscribing broadcasting unsubscribing : Application

module _ (p : Protobuf) where
  -- `nav_publisher_` of BasicPublisher. The second callback is about a report.
  unfoldable pub basic_publisher : Callbacks p.Report p.AckData p.ExpireData
  basic_publisher = record {
    acked = λ nav ack.
        codes "Received acknowledgment:\n\t"
        ++ p.ack_string ack
        ++ codes "\nfor message:\n\t"
        ++ p.report_string nav
        ++ codes "\n";
    expired = λ nav expire.
        codes "Received expiration notice:\n\t"
        ++ p.expire_string expire
        ++ codes "\nfor subscription:\n\t"
        ++ p.report_string nav
        ++ codes "\n";
  }

  -- `nav_publisher_` of SameGroup.
  unfoldable pub same_group_publisher : Callbacks p.Report p.AckData p.ExpireData
  same_group_publisher = record {
    acked = λ nav ack.
        codes "Received acknowledgment:\n\t"
        ++ p.ack_string ack
        ++ codes "\nfor message:\n\t"
        ++ p.report_string nav
        ++ codes "\n";
    expired = λ nav expire.
        codes "Received expiration notice:\n\t"
        ++ p.expire_string expire
        ++ codes "\nfor subscription:\n\t"
        ++ p.report_string nav
        ++ codes "\n";
  }

  -- `nav_subscriber` of SameGroup.
  unfoldable pub same_group_subscriber : Callbacks p.Subscription p.AckData p.ExpireData
  same_group_subscriber = record {
    acked = λ sub ack.
        codes "Received acknowledgment:\n\t"
        ++ p.ack_string ack
        ++ codes "\nfor subscription:\n\t"
        ++ p.subscription_string sub
        ++ codes "\n";
    expired = λ sub expire.
        codes "Received expiration notice:\n\t"
        ++ p.expire_string expire
        ++ codes "\nfor subscription:\n\t"
        ++ p.subscription_string sub
        ++ codes "\n";
  }

  -- `nav_subscriber` of BasicSubscriber.
  unfoldable pub basic_subscriber : Callbacks p.Subscription p.AckData p.ExpireData
  basic_subscriber = record {
    acked = λ sub ack.
        codes "Received acknowledgment:\n\t"
        ++ p.ack_string ack
        ++ codes "\nfor subscription:\n\t"
        ++ p.subscription_string sub
        ++ codes "\n";
    expired = λ sub expire.
        codes "Received expiration notice:\n\t"
        ++ p.expire_string expire
        ++ codes "\nfor subscription:\n\t"
        ++ p.subscription_string sub
        ++ codes "\n";
  }

  -- `nav_subscriber` of BroadcastSubscriber.
  unfoldable pub broadcast_subscriber : Callbacks p.Subscription p.AckData p.ExpireData
  broadcast_subscriber = record {
    acked = λ sub ack.
        codes "Received acknowledgment:\n\t"
        ++ p.ack_string ack
        ++ codes "\nfor subscription:\n\t"
        ++ p.subscription_string sub
        ++ codes "\n";
    expired = λ sub expire.
        codes "Received expiration notice:\n\t"
        ++ p.expire_string expire
        ++ codes "\nfor subscription:\n\t"
        ++ p.subscription_string sub
        ++ codes "\n";
  }

  -- `nav_subscriber_` of Unsubscriber.
  unfoldable pub unsubscriber : Callbacks p.Subscription p.AckData p.ExpireData
  unsubscriber = record {
    acked = λ sub ack.
        codes "Received acknowledgment:\n\t"
        ++ p.ack_string ack
        ++ codes "\nfor subscription:\n\t"
        ++ p.subscription_string sub
        ++ codes "\n";
    expired = λ sub expire.
        codes "Received expiration notice:\n\t"
        ++ p.expire_string expire
        ++ codes "\nfor subscription:\n\t"
        ++ p.subscription_string sub
        ++ codes "\n";
  }

  -- What Goby tells a program.
  pub data Notice : Type 0 where
    report_acked : p.Report → p.AckData → Notice
    report_expired : p.Report → p.ExpireData → Notice
    subscription_acked : p.Subscription → p.AckData → Notice
    subscription_expired : p.Subscription → p.ExpireData → Notice

  abbrev of_publisher : Callbacks p.Report p.AckData p.ExpireData → Notice → List Text
  of_publisher c (report_acked nav ack) = c.acked nav ack ∷ []
  of_publisher c (report_expired nav expire) = c.expired nav expire ∷ []
  of_publisher c _ = []

  abbrev of_subscriber : Callbacks p.Subscription p.AckData p.ExpireData → Notice → List Text
  of_subscriber c (subscription_acked sub ack) = c.acked sub ack ∷ []
  of_subscriber c (subscription_expired sub expire) = c.expired sub expire ∷ []
  of_subscriber c _ = []

  -- What a program prints when Goby sets off the callback for a notice, if it has one.
  unfoldable pub printed : Application → Notice → List Text
  unfolding basic_publisher same_group_publisher same_group_subscriber basic_subscriber
      broadcast_subscriber unsubscriber
  printed publishing n = of_publisher basic_publisher n
  printed same_group n =
      of_publisher same_group_publisher n ++ of_subscriber same_group_subscriber n
  printed subscribing n = of_subscriber basic_subscriber n
  printed broadcasting n = of_subscriber broadcast_subscriber n
  printed unsubscribing n = of_subscriber unsubscriber n
