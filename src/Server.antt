-- ===== src/Server.antt =====
-- src/bin/server.rs: the handlers of `Svc`. The protobuf encoding of `Any` is a parameter; the clock of
-- the hub is an argument where an event is dispatched.
use interstellar_db.Base.{ℕ, List, [], ◌∷◌, map, Option, none, some, ltb, if◌then◌else◌}
use interstellar_db.Base.Result.{Result, ok, err, panic}
use interstellar_db.Float.{F64}
use interstellar_db.Hub.{Mpsc, SubscriptionHub, attach}
use interstellar_db.Store.{Store, ObservationEvent}
use interstellar_db.Store.Ingest.{Record}
use interstellar_db.Store.Ingest
use interstellar_db.Store.KeyValue.{Kv}
use interstellar_db.Store.Query.{Observation}
use interstellar_db.Store.Query

-- `google.protobuf.Any`, with `encode_to_vec` and `decode`.
pub record Prost : Type 1 where
  pub Any : Type 0
  pub encode : Any → List ℕ
  pub decode : List ℕ → Option Any

module _ (f : F64) (prost : Prost) where
  pub record QueryResponse : Type 0 where
    pub key : List ℕ
    pub x : f.Value
    pub y : f.Value
    pub z : f.Value
    pub timestamp_secs : ℕ
    pub timestamp_nanos : ℕ
    pub payload : Option prost.Any

  unfoldable pub response_payload : List ℕ → Option prost.Any
  response_payload [] = none
  response_payload (b ∷ bytes) = prost.decode (b ∷ bytes)

  unfoldable pub obs_to_response : Observation f → QueryResponse
  obs_to_response o = record {
    key = o.key;
    x = o.x;
    y = o.y;
    z = o.z;
    timestamp_secs = o.timestamp_secs;
    timestamp_nanos = o.timestamp_nanos;
    payload = response_payload o.payload;
  }

  unfoldable pub event_to_response : ObservationEvent f → QueryResponse
  event_to_response e = record {
    key = e.key;
    x = e.x;
    y = e.y;
    z = e.z;
    timestamp_secs = e.timestamp_secs;
    timestamp_nanos = e.timestamp_nanos;
    payload = response_payload e.payload;
  }

  pub record StoreRequest : Type 0 where
    pub x : f.Value
    pub y : f.Value
    pub z : f.Value
    pub timestamp_secs : ℕ
    pub timestamp_nanos : ℕ
    pub payload : Option prost.Any

  pub record QueryWindowRequest : Type 0 where
    pub center_x : f.Value
    pub center_y : f.Value
    pub center_z : f.Value
    pub radius : f.Value
    pub start_secs : ℕ
    pub end_secs : ℕ

  pub record SubscribeRequest : Type 0 where
    pub center_x : f.Value
    pub center_y : f.Value
    pub center_z : f.Value
    pub radius : f.Value
    pub max_age_secs : ℕ

  module _ (kv : Kv) (sha256 : List ℕ → List ℕ) where
    unfoldable pub store : Store f kv → StoreRequest → Store f kv × Result (List ℕ)
    store self req = elim req.payload [
      | none ↦ (self, err)
      | some any ↦ Ingest.store f kv sha256 self (record {
        x = req.x;
        y = req.y;
        z = req.z;
        secs = req.timestamp_secs;
        nanos = req.timestamp_nanos;
        payload = prost.encode any;
      })
    ]

    -- What the task sends: the responses, or an error.
    unfoldable pub response_stream : Result (List (Observation f)) → List (Option QueryResponse)
    response_stream (ok items) = map (λ (o : Observation f). some (obs_to_response o)) items
    response_stream err = none ∷ []
    response_stream panic = none ∷ []

    unfoldable pub query_window :
        Store f kv → QueryWindowRequest → Result (List (Option QueryResponse))
    query_window self req =
        if ltb req.end_secs req.start_secs
        then err
        else ok (
            response_stream (
              Query.query_window f kv self req.center_x req.center_y req.center_z req.radius
                req.start_secs req.end_secs))

  -- The buffer holds 256 events.
  unfoldable pub subscribe :
      (mpsc : Mpsc f) → SubscriptionHub f mpsc → SubscribeRequest → SubscriptionHub f mpsc
  subscribe mpsc subs req =
      attach f mpsc subs req.center_x req.center_y req.center_z req.radius req.max_age_secs 256
