-- ===== src/PubSub.antt =====
-- Goby's publish and subscribe, as far as the programs use it: src/messages/groups.h and the calls
-- of `publish` and `subscribe` in the constructors and callbacks.
--
-- A group is its name. A callback is for one type of message; for a message of another type it is
-- `none`. Goby carries a publication from one layer to another: which subscriptions it reaches is
-- the record `Transporter`, and `TransporterLaws` is what Goby documents of it.
use goby3_examples.Base.{
  ℕ, zero, suc, each, ◌≡◌, Bool, true, false, ◌&&◌, Option, none, some, List, [], ◌∷◌, ◌++◌,
  if◌then◌else◌,
}
use goby3_examples.Base.Text.{Text, text_eq}

pub data Layer : Type 0 where
  interthread interprocess intervehicle : Layer

-- Whether a publication on the first layer is heard by a subscription on the second one.
pub record Transporter : Type 0 where
  pub hears : Layer → Layer → Bool

-- A layer hears itself. What is published to other processes is also heard by the threads of one's
-- own; what is published to the threads alone leaves the process never.
pub record TransporterLaws (tr : Transporter) : Type 0 where
  pub same : (l : Layer) → tr.hears l l ≡ true
  pub inward : tr.hears interprocess interthread ≡ true
  pub inside : tr.hears interthread interprocess ≡ false

pub record Publication (M : Type 0) : Type 0 where
  pub layer : Layer
  pub group : Text
  pub message : M

-- What a callback does is a list of effects.
pub record Subscription (M E : Type 0) : Type 0 where
  pub layer : Layer
  pub group : Text
  pub callback : M → Option (List E)

abbrev pub effects : {E : Type 0} → Option (List E) → List E
effects none = []
effects (some es) = es

module _ (tr : Transporter) {M E : Type 0} where
  abbrev pub reaches : Publication M → Subscription M E → Bool
  reaches p s = tr.hears p.layer s.layer && text_eq p.group s.group

  -- The callbacks that a publication sets off, in the order of their subscriptions.
  unfoldable pub deliver : List (Subscription M E) → Publication M → List E
  deliver [] p = []
  deliver (s ∷ ss) p = (if reaches p s then effects (s.callback p.message) else []) ++ deliver ss p

module _ (tr : Transporter) {M E : Type 0} (subscriptions : List (Subscription M E))
    (published : List E → List (Publication M)) (carry : Publication M → List (Publication M)) where
  -- All that a publication sets off: the callbacks' effects, and those of what the callbacks publish
  -- and of what the threads that take up the publication hand in, as often as the fuel allows.
  unfoldable pub spread : ℕ → Publication M → List E
  spread zero p = []
  spread (suc n) p =
      let es = deliver tr subscriptions p in es ++ each (spread n) (published es ++ carry p)
