-- ===== src/Hub/Delivery.antt =====
-- About src/hub.rs: who gets an event.
use interstellar_db.Base.{
  ℕ, ◌+◌, ◌≤◌, ◌≡◌, ◌⊎◌, refl, sym, ap, ◌∙◌, arith, [], ◌∷◌, map, true, false, Bool-cases, inl, inr,
  subst,
}
use interstellar_db.Float.{F64}
use interstellar_db.Store.{ObservationEvent}
use interstellar_db.Hub.{
  Mpsc, Subscription, SubscriptionHub, is_stale, offer, fan_out, retain_open, dispatch,
}
use interstellar_db.Store.Query.{in_sphere}

module _ (f : F64) (mpsc : Mpsc f) (now_secs : ℕ) (event : ObservationEvent f) where
  -- No more than the bound behind the clock, or no bound.
  abbrev IsYoung : Subscription f mpsc → Type 0
  IsYoung sub = (sub.max_age_secs ≡ 0) ⊎ (now_secs ≤ event.timestamp_secs + sub.max_age_secs)

  abbrev IsNear : Subscription f mpsc → Type 0
  IsNear sub =
      f.leb
        (f.add
          (f.add (f.mul (f.sub event.x sub.center_x) (f.sub event.x sub.center_x))
            (f.mul (f.sub event.y sub.center_y) (f.sub event.y sub.center_y)))
          (f.mul (f.sub event.z sub.center_z) (f.sub event.z sub.center_z)))
        sub.r2
      ≡ true

  -- What becomes of the subscriptions when an event comes.
  pub data Dispatched : SubscriptionHub f mpsc → SubscriptionHub f mpsc → Type 0 where
    nobody : Dispatched [] []
    gone :
        {sub : Subscription f mpsc} {subs out : SubscriptionHub f mpsc}
        → mpsc.is_closed sub.tx ≡ true
        → Dispatched subs out
        → Dispatched (sub ∷ subs) out
    sent :
        {sub : Subscription f mpsc} {subs out : SubscriptionHub f mpsc}
        → mpsc.is_closed sub.tx ≡ false
        → IsYoung sub
        → IsNear sub
        → Dispatched subs out
        → Dispatched (sub ∷ subs) (record sub { tx = mpsc.try_send sub.tx event } ∷ out)
    passed :
        {sub : Subscription f mpsc} {subs out : SubscriptionHub f mpsc}
        → mpsc.is_closed sub.tx ≡ false
        → (¬ IsYoung sub) ⊎ (¬ IsNear sub)
        → Dispatched subs out
        → Dispatched (sub ∷ subs) (sub ∷ out)

  is_stale-true :
      (sub : Subscription f mpsc) → is_stale f mpsc now_secs event sub ≡ true → ¬ IsYoung sub
  unfolding is_stale
  is_stale-true sub h = λ young. ground (arith, h, young)

  is_stale-false :
      (sub : Subscription f mpsc) → is_stale f mpsc now_secs event sub ≡ false → IsYoung sub
  unfolding is_stale
  is_stale-false sub h = ground (arith, h)

  -- One open subscription.
  offer-one :
      (sub : Subscription f mpsc) (subs out : SubscriptionHub f mpsc)
      → mpsc.is_closed sub.tx ≡ false
      → Dispatched subs out
      → Dispatched (sub ∷ subs) (offer f mpsc now_secs event sub ∷ out)
  unfolding offer in_sphere
  offer-one sub subs out live rest = elim (Bool-cases (is_stale f mpsc now_secs event sub)) [
    | inl old ↦ rw (old, offer) (passed live (inl (is_stale-true sub old)) rest)
    | inr young ↦
        elim (Bool-cases
          (in_sphere f sub.center_x sub.center_y sub.center_z sub.r2 event.x event.y event.z)) [
            | inl near ↦ rw (young, near, offer) (sent live (is_stale-false sub young) near rest)
            | inr far ↦
                rw (young, far, offer)
                  (passed live (inr (λ near. ground (arith, sym near ∙ far))) rest)
          ]
  ]

  offer-Dispatched :
      (subs : SubscriptionHub f mpsc)
      → Dispatched subs (map (offer f mpsc now_secs event) (retain_open f mpsc subs))
  unfolding retain_open
  offer-Dispatched [] = nobody
  offer-Dispatched (sub ∷ subs) = elim (Bool-cases (mpsc.is_closed sub.tx)) [
    | inl shut ↦ rw shut (gone shut (offer-Dispatched subs))
    | inr live ↦ rw live (offer-one sub subs _ live (offer-Dispatched subs))
  ]

module _ (f : F64) (mpsc : Mpsc f)
    (stays : (tx : mpsc.Sender) (e : ObservationEvent f)
      → mpsc.is_closed tx ≡ false
      → mpsc.is_closed (mpsc.try_send tx e) ≡ false)
    (now_secs : ℕ) (event : ObservationEvent f) where
  offer-open :
      (sub : Subscription f mpsc)
      → mpsc.is_closed sub.tx ≡ false
      → mpsc.is_closed (offer f mpsc now_secs event sub).tx ≡ false
  unfolding offer
  offer-open sub live = ground (arith, live, stays sub.tx event live)

  -- After the loop and the sweep: the open ones, each offered the event.
  retain_open-fan_out :
      (subs : SubscriptionHub f mpsc)
      → retain_open f mpsc (fan_out f mpsc now_secs event subs).0
        ≡ map (offer f mpsc now_secs event) (retain_open f mpsc subs)
  unfolding fan_out retain_open
  retain_open-fan_out [] = refl
  retain_open-fan_out (sub ∷ subs) = elim (Bool-cases (mpsc.is_closed sub.tx)) [
    | inl shut ↦ rw shut (rw shut (retain_open-fan_out subs))
    | inr live ↦ rw live (
        rw (offer-open sub live) (
          ap (λ (rest : SubscriptionHub f mpsc). offer f mpsc now_secs event sub ∷ rest)
            (retain_open-fan_out subs)))
  ]

  -- Where none is closed, the sweep drops none.
  all_open :
      (subs : SubscriptionHub f mpsc)
      → (fan_out f mpsc now_secs event subs).1 ≡ false
      → retain_open f mpsc (fan_out f mpsc now_secs event subs).0
        ≡ (fan_out f mpsc now_secs event subs).0
  unfolding fan_out retain_open
  all_open [] = λ h. refl
  all_open (sub ∷ subs) = elim (Bool-cases (mpsc.is_closed sub.tx)) [
    | inl shut ↦ rw shut (λ bad. absurd (ground (arith, bad)))
    | inr live ↦ rw live (λ kept. rw (offer-open sub live) (
        ap (λ (rest : SubscriptionHub f mpsc). offer f mpsc now_secs event sub ∷ rest)
          (all_open subs kept)))
  ]

  dispatch-offer :
      (subs : SubscriptionHub f mpsc)
      → dispatch f mpsc now_secs event subs
        ≡ map (offer f mpsc now_secs event) (retain_open f mpsc subs)
  unfolding dispatch
  dispatch-offer subs = elim (Bool-cases (fan_out f mpsc now_secs event subs).1) [
    | inl swept ↦ rw (swept, dispatch) (retain_open-fan_out subs)
    | inr kept ↦ rw (kept, dispatch) (sym (all_open subs kept) ∙ retain_open-fan_out subs)
  ]

  -- Over channels that a `try_send` does not close, `dispatch` drops the closed subscriptions and
  -- keeps the others in order; it sends the event to an open one just if the event is no more than
  -- `max_age_secs` behind the clock, where that is not 0, and the sum of the squares of its
  -- distances from the center, as the floats compute it, is at most `r2`, and changes nothing else
  -- of it.
  pub dispatch-Dispatched :
      (subs : SubscriptionHub f mpsc)
      → Dispatched f mpsc now_secs event subs (dispatch f mpsc now_secs event subs)
  dispatch-Dispatched subs =
      subst (Dispatched f mpsc now_secs event subs) (sym (dispatch-offer subs))
        (offer-Dispatched f mpsc now_secs event subs)
