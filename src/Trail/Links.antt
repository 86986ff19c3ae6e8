-- ===== src/Trail/Links.antt =====
-- Who hears whom: the subscriptions of the three managers.
use goby3_examples.Base.{Among, ◌≡◌, refl, ◌↔◌, ◌⊎◌, inl, inr, List, [], ◌∷◌, sym, arith}
use goby3_examples.Base.Int.{ℤ}
use goby3_examples.Trail.{Group, usv_nav, auv_nav, Subscription}
use goby3_examples.Trail.AuvManager
use goby3_examples.Trail.UsvManager
use goby3_examples.Trail.TopsideManager

-- One of the subscriptions is to the group, from the publisher.
abbrev pub Hears : Group → ℤ → List Subscription → Type 0
Hears g id [] = ⊥
Hears g id (s ∷ ss) = ((s.group ≡ g) × (s.publisher_id ≡ id)) ⊎ Hears g id ss

usv-to :
    (g : Group) (id : ℤ) (ids : List ℤ)
    → Hears g id (UsvManager.subscriptions ids)
    → (g ≡ auv_nav) × Among id ids
unfolding UsvManager.subscriptions UsvManager.subscription
usv-to g id [] h = absurd h
usv-to g id (j ∷ ids) (inl (a, b)) = (sym a, inl b)
usv-to g id (j ∷ ids) (inr h) = let (a, b) = usv-to g id ids h in (a, inr b)

usv-from :
    (g : Group) (id : ℤ) (ids : List ℤ)
    → g ≡ auv_nav
    → Among id ids
    → Hears g id (UsvManager.subscriptions ids)
unfolding UsvManager.subscriptions UsvManager.subscription
usv-from g id [] a h = absurd h
usv-from g id (j ∷ ids) a (inl b) = inl (sym a, b)
usv-from g id (j ∷ ids) a (inr h) = inr (usv-from g id ids a h)

topside-Hears :
    (g : Group) (id usv : ℤ) → Hears g id (TopsideManager.subscriptions usv) ↔ (usv ≡ id)
unfolding TopsideManager.subscriptions TopsideManager.usv_subscription
topside-Hears usv_nav id usv = (λ h. ground arith, λ h. inl (refl, h))
topside-Hears auv_nav id usv = (λ h. ground arith, λ h. inr (inl (refl, h)))

-- An AUV hears the USV group, from the USV alone; the USV hears the AUV group, from the configured
-- AUVs alone; the topside hears both groups, from the USV alone.
pub subscriptions-Hears :
    (g : Group) (id usv : ℤ) (auvs : List ℤ)
    → (Hears g id (AuvManager.subscriptions usv) ↔ ((g ≡ usv_nav) × (usv ≡ id)))
      × (Hears g id (UsvManager.subscriptions auvs) ↔ ((g ≡ auv_nav) × Among id auvs))
      × (Hears g id (TopsideManager.subscriptions usv) ↔ (usv ≡ id))
unfolding AuvManager.subscriptions
subscriptions-Hears g id usv auvs = (
  (λ h. ground arith, λ h. ground arith),
  (λ h. usv-to g id auvs h, λ h. usv-from g id auvs h.0 h.1),
  topside-Hears g id usv,
)
