-- ===== src/Queue/Tests.antt =====
-- A wait whose second round finds a key after the keys were restored.
use nvidia_api_gateway.Prelude.{false, List, [], ◌∷◌, ◌≡◌, refl}
use nvidia_api_gateway.Prelude.Int.{pos, negsuc, ◌+ℤ◌, ◌-ℤ◌}
use nvidia_api_gateway.Prelude.Text.{codes, text_eq}
use nvidia_api_gateway.Prelude.Maps.{lookup, insert, retain}
use nvidia_api_gateway.Scheduler.{Scheduler, acquire_key, has_key, unix}
use nvidia_api_gateway.Queue.{
  poll_tick, Round, restore, acquire_key_with_queue, acquire_key_with_queue_from, queue_loop,
}
use nvidia_api_gateway.Queue.Granted.{
  AllValid, Justified, bound_of, acquire_key_with_queue-Justified,
}

abbrev empty_pool : Scheduler
empty_pool = record { active = []; cooling = []; dead = []; concurrency = [] }

abbrev one_key : Scheduler
one_key = record empty_pool {
  active = record { key = codes "key1"; weight = pos 1; current_weight = pos 0 } ∷ [];
}

abbrev rounds : List Round
rounds =
    record { scheduler = empty_pool; now = pos 0; signal = poll_tick }
    ∷ record { scheduler = one_key; now = pos 0; signal = poll_tick }
    ∷ []

rounds-AllValid : AllValid rounds
unfolding has_key
rounds-AllValid = (
  record { active = tt; cooling = tt; dead = tt; concurrency = tt },
  (record { active = (refl, tt); cooling = tt; dead = tt; concurrency = tt }, tt),
)

-- The keys were restored once, after the first round.
restored_once : (acquire_key_with_queue false (negsuc 0) rounds).1 ≡ restore ∷ []
unfolding acquire_key_with_queue acquire_key_with_queue_from queue_loop acquire_key lookup insert
    retain text_eq unix ◌+ℤ◌ ◌-ℤ◌
restored_once = refl

acquire_key_with_queue-Justified_example :
    Justified rounds (bound_of (negsuc 0)) (acquire_key_with_queue false (negsuc 0) rounds).0
acquire_key_with_queue-Justified_example =
    acquire_key_with_queue-Justified false (negsuc 0) rounds rounds-AllValid
