-- ===== src/Examples/Bus.antt =====
-- The bus's theorems at concrete inputs.
use or3_intern.Base.{◌≡◌, refl, false, some, [], ◌∷◌, arith}
use or3_intern.Base.Int.{pos}
use or3_intern.Base.Table.{find}
use or3_intern.Bus.{
  Bus, Subscriber, new_bus, new_subscriber, subscribe_named, publish, close, is_legacy,
}
use or3_intern.Bus.Machine.{IsValid, here, subscribes, publishes, closes, Reach-IsValid}
use or3_intern.Bus.Delivery.{Accounted, publish_all, publish_all-Accounted}

-- a new bus whose channels take two events
abbrev fresh : Bus
fresh = record {
  buffer = 2;
  closed = false;
  legacy = some 0;
  legacy_used = false;
  subscribers =
      (0, record { waiting = []; closed = false; name = "legacy-worker-queue"; dropped = 0 }) ∷ [];
  next = 1;
  gone = [];
}

fresh_made : new_bus (pos 2) ≡ some fresh
unfolding new_bus new_subscriber
fresh_made = refl

Reach-IsValid_example : IsValid (close (publish 7 0 (subscribe_named "screen" fresh).0).0)
Reach-IsValid_example =
    Reach-IsValid (pos 2) fresh_made (closes (publishes (subscribes here "screen") 7 0))

abbrev screen : Subscriber
screen = record { waiting = []; closed = false; name = "screen"; dropped = 0 }

abbrev watched : Bus
watched = record fresh { subscribers = (1, screen) ∷ fresh.subscribers; next = 2 }

publish_all-Accounted_example :
    (s' : Subscriber) × (find 1 (publish_all (7 ∷ 8 ∷ 9 ∷ []) watched).subscribers ≡ some s')
    × Accounted 2 (7 ∷ 8 ∷ 9 ∷ []) screen s'
unfolding is_legacy find
publish_all-Accounted_example =
    publish_all-Accounted (7 ∷ 8 ∷ 9 ∷ []) watched 1 2 screen refl refl refl refl (omega arith)
      (omega arith)
