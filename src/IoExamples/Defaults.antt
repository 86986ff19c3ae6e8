-- ===== src/IoExamples/Defaults.antt =====
-- What the configurators set.
use goby3_examples.Base.{◌≡◌, refl, ◌≢◌, ◌⊎◌, inl, inr, Option, none, some, [], ◌∷◌, ◌++◌}
use goby3_examples.IoExamples.{or_default}
use goby3_examples.IoExamples.Tcp
use goby3_examples.IoExamples.Udp
use goby3_examples.IoExamples.Cobs
use goby3_examples.IoExamples.Can
use goby3_examples.IoExamples.Pty

-- The second value is set, and is the first one if that is set.
abbrev pub Fills : {A : Type 0} → Option A → Option A → Type 0
Fills o p = (p ≢ none) × ((o ≡ none) ⊎ (p ≡ o))

fills : {A : Type 0} (d : A) (o : Option A) → Fills o (some (or_default d o))
fills d none = (λ e. cc, inl refl)
fills d (some a) = (λ e. cc, inr refl)

-- Each of the five configurators leaves what the user has set as it is, and sets all the rest. The
-- filters of the CAN bus are the user's, and one more.
pub configure-Fills :
    (t : Tcp.Config) (u : Udp.Config) (c : Cobs.Config) (b : Can.Config) (p : Pty.Config)
    → let t' = Tcp.configure t in
      let u' = Udp.configure u in
      let c' = Cobs.configure c in
      let b' = Can.given (Can.configure b).can_config in
      let p' = Pty.given (Pty.configure p).pty_config in
      (Fills t.server t'.server × Fills t.client1 t'.client1 × Fills t.client2 t'.client2)
      × (Fills u.server u'.server × Fills u.client1 u'.client1 × Fills u.client2 u'.client2)
      × (Fills c.server c'.server
          × Fills c.client c'.client
          × Fills c.pty c'.pty
          × Fills c.serial c'.serial)
      × (Fills (Can.given b.can_config).interface b'.interface
          × (b'.filter ≡ (Can.given b.can_config).filter ++ record { can_id = 436 } ∷ []))
      × Fills (Pty.given p.pty_config).port p'.port
unfolding Tcp.configure Udp.configure Cobs.configure Can.configure Pty.configure
configure-Fills t u c b p = (
  (fills _ t.server, fills _ t.client1, fills _ t.client2),
  (fills _ u.server, fills _ u.client1, fills _ u.client2),
  (fills _ c.server, fills _ c.client, fills _ c.pty, fills _ c.serial),
  (fills _ (Can.given b.can_config).interface, refl),
  fills _ (Pty.given p.pty_config).port,
)
