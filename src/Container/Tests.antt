-- ===== src/Container/Tests.antt =====
-- A small world for the collector, and the theorems at concrete containers.
use claude_multi_agent.Base.{
  ℕ, zero, suc, String, false, Option, none, some, [], ◌∷◌, returned, ◌≡◌, refl,
}
use claude_multi_agent.Container.{ContainerInfo, idle, to_redis_hash, from_redis_hash}
use claude_multi_agent.Container.RoundTrip.{redis_hash_round_trip}
use claude_multi_agent.Container.Gc.{GcSettings, Listed, Services}

-- Times as that many strokes.
abbrev strokes : ℕ → String
strokes zero = String.[]
strokes (suc n) = String.◌∷◌ "i" (strokes n)

abbrev count_strokes : String → Option ℕ
count_strokes String.[] = some 0
count_strokes (String.◌∷◌ c s) = next (count_strokes s)
  where
    next : Option ℕ → Option ℕ
    next none = none
    next (some n) = some (suc n)

count-strokes : (t : ℕ) → count_strokes (strokes t) ≡ some t
count-strokes zero = refl
count-strokes (suc t) = rw (count-strokes t) refl

abbrev info : ContainerInfo
info = record {
  id = "ws-1";
  conversation_id = "c1";
  agent_socket = "a.sock";
  proxy_socket = "p.sock";
  created_at = 3;
  last_active_at = 5;
  status = idle;
}

redis_hash_round_trip_example :
    from_redis_hash count_strokes (to_redis_hash strokes info) ≡ some info
redis_hash_round_trip_example = redis_hash_round_trip strokes count_strokes info count-strokes

abbrev settings : GcSettings
settings = record {
  container_inactive_ttl = 10;
  container_absolute_ttl = 100;
  container_grace_period = 30;
}

-- The state counts the containers destroyed; there is no metadata.
abbrev services : Services ℕ
services = record {
  pool_info_exists = λ id s. false;
  mapped_conversation = λ id s. none;
  metadata = λ id s. [];
  set_draining = λ id s. s;
  delete_metadata = λ id s. s;
  delete_reverse = λ id s. s;
  proxy_stop_callback = none;
  destroy_container = λ id grace s. (returned tt, suc s);
}

abbrev listed : Listed
listed = record { name = "ws-1"; label = ""; created = "2026-01-01T00:00:00Z" }

abbrev no_number : String → Option ℕ
no_number text = none
