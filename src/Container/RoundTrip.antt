-- ===== src/Container/RoundTrip.antt =====
-- A container's metadata survives Redis.
use claude_multi_agent.Base.{ℕ, String, Option, some, ◌≡◌, refl}
use claude_multi_agent.Container.{
  ContainerStatus, warm, ready, running, idle, draining, destroyed, status_value, status_of,
  ContainerInfo, to_redis_hash, from_redis_hash,
}

pub status_of-status_value : (s : ContainerStatus) → status_of (status_value s) ≡ some s
unfolding status_of status_value
status_of-status_value warm = refl
status_of-status_value ready = refl
status_of-status_value running = refl
status_of-status_value idle = refl
status_of-status_value draining = refl
status_of-status_value destroyed = refl

-- What is written to the Redis hash is read back as the same container, in every status, if times are
-- read back as they are printed.
pub redis_hash_round_trip :
    (isoformat : ℕ → String) (fromisoformat : String → Option ℕ) (i : ContainerInfo)
    → ((t : ℕ) → fromisoformat (isoformat t) ≡ some t)
    → from_redis_hash fromisoformat (to_redis_hash isoformat i) ≡ some i
unfolding from_redis_hash to_redis_hash
redis_hash_round_trip isoformat fromisoformat i h =
    rw (h i.created_at, h i.last_active_at, status_of-status_value i.status) refl
