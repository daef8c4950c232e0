-- ===== src/Hub.antt =====
-- src/hub.rs: `SubscriptionHub`. The bounded channel and the clock are parameters.
pub mod Delivery
use interstellar_db.Base.{
  ℕ, ◌-◌, List, [], ◌∷◌, ◌++◌, Bool, true, false, ◌&&◌, ltb, if◌then◌else◌, not, ◌||◌,
}
use interstellar_db.Float.{F64}
use interstellar_db.Store.{ObservationEvent}
use interstellar_db.Store.Query.{in_sphere}

-- The sending end of a bounded channel; a failed `try_send` drops the event.
pub record Mpsc (f : F64) : Type 1 where
  pub Sender : Type 0
  pub channel : ℕ → Sender
  pub is_closed : Sender → Bool
  pub try_send : Sender → ObservationEvent f → Sender

-- What `recv` of the broadcast channel gives.
pub data Recv (f : F64) : Type 0 where
  received : ObservationEvent f → Recv f
  lagged : Recv f
  closed : Recv f

module _ (f : F64) (mpsc : Mpsc f) where
  pub record Subscription : Type 0 where
    pub center_x : f.Value
    pub center_y : f.Value
    pub center_z : f.Value
    pub r2 : f.Value
    pub max_age_secs : ℕ
    pub tx : mpsc.Sender

  abbrev pub SubscriptionHub : Type 0
  SubscriptionHub = List Subscription

  unfoldable pub attach :
      SubscriptionHub → f.Value → f.Value → f.Value → f.Value → ℕ → ℕ → SubscriptionHub
  attach subs center_x center_y center_z radius max_age_secs buffer =
      subs
      ++ record {
        center_x = center_x;
        center_y = center_y;
        center_z = center_z;
        r2 = f.mul radius radius;
        max_age_secs = max_age_secs;
        tx = mpsc.channel buffer;
      }
        ∷ []

  -- Whether an event is too old for a subscription.
  unfoldable pub is_stale : ℕ → ObservationEvent f → Subscription → Bool
  is_stale now_secs event sub =
      ltb 0 sub.max_age_secs && ltb sub.max_age_secs (now_secs - event.timestamp_secs)

  -- One round of the loop over the subscriptions that are not closed.
  unfoldable pub offer : ℕ → ObservationEvent f → Subscription → Subscription
  offer now_secs event sub =
      if is_stale now_secs event sub
      then sub
      else if in_sphere f sub.center_x sub.center_y sub.center_z sub.r2 event.x event.y event.z
      then record sub { tx = mpsc.try_send sub.tx event }
      else sub

  -- The loop: the subscriptions after it, and `any_closed`.
  unfoldable pub fan_out : ℕ → ObservationEvent f → SubscriptionHub → SubscriptionHub × Bool
  fan_out now_secs event [] = ([], false)
  fan_out now_secs event (sub ∷ subs) =
      let (rest, any_closed) = fan_out now_secs event subs in
      if mpsc.is_closed sub.tx
      then (sub ∷ rest, true)
      else (offer now_secs event sub ∷ rest, any_closed)

  -- `retain(|sub| !sub.tx.is_closed())`.
  unfoldable pub retain_open : SubscriptionHub → SubscriptionHub
  retain_open [] = []
  retain_open (sub ∷ subs) =
      let rest = retain_open subs in if mpsc.is_closed sub.tx then rest else sub ∷ rest

  unfoldable pub dispatch : ℕ → ObservationEvent f → SubscriptionHub → SubscriptionHub
  dispatch now_secs event subs =
      let (next, any_closed) = fan_out now_secs event subs in
      if any_closed then retain_open next else next

  -- The loop of `run`, over what `recv` gives and the clock at each event; the list is cut off where
  -- the run is watched no longer.
  unfoldable pub run : List (ℕ × Recv f) → SubscriptionHub → SubscriptionHub
  run [] subs = subs
  run ((now_secs, received e) ∷ more) subs = run more (dispatch now_secs e subs)
  run ((now_secs, lagged) ∷ more) subs = run more subs
  run ((now_secs, closed) ∷ more) subs = subs
