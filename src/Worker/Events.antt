-- ===== src/Worker/Events.antt =====
-- services/controller/src/worker.rs: `append_event`, and the shape of the errors.
use ctfdpp.Base.{ℕ, none, String, [], ◌∷◌, ◌++◌}
use ctfdpp.Base.Json.{Value}
use ctfdpp.Runtime.{Db, Event}

pub data Result {ℓ} (A : Type ℓ) : Type ℓ where
  ok : A → Result A
  error : String → Result A

unfoldable pub append_event : ℕ → String → Value → Db → Db
append_event instance_id event_type payload db = record db { events = db.events ++ event ∷ [] }
  where
    event : Event
    event = record {
      instance_id = instance_id;
      event_type = event_type;
      source = "controller";
      actor_user_id = none;
      payload = payload;
    }
