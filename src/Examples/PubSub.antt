-- ===== src/Examples/PubSub.antt =====
-- A transporter that carries a publication inward, to its own layer and to those inside it.
use goby3_examples.Base.{◌≡◌, refl, Bool, true, false}
use goby3_examples.PubSub.{
  Layer, interthread, interprocess, intervehicle, Transporter, TransporterLaws,
}

abbrev hears : Layer → Layer → Bool
hears interthread interthread = true
hears interthread _ = false
hears interprocess intervehicle = false
hears interprocess _ = true
hears intervehicle _ = true

abbrev pub transporter : Transporter
transporter = record { hears = hears }

same : (l : Layer) → hears l l ≡ true
same interthread = refl
same interprocess = refl
same intervehicle = refl

pub transporter_laws : TransporterLaws transporter
transporter_laws = record { same = same; inward = refl; inside = refl }
