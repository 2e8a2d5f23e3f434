-- ===== src/Container.antt =====
-- A container's metadata: app/services/container/models.py. Times are whole ticks, and a Redis hash is
-- a list of its fields; `isoformat` and `fromisoformat` are parameters, `none` a ValueError.
pub mod RoundTrip
pub mod Gc
pub mod Orchestrator
pub mod WarmPool
mod Tests
use text.Mathlib.Text.{◌==◌}
use claude_multi_agent.Base.{
  ℕ, String, Bool, true, false, Option, none, some, List, [], ◌∷◌, if◌then◌else◌,
}

pub data ContainerStatus : Type 0 where
  warm ready running idle draining destroyed : ContainerStatus

unfoldable pub status_value : ContainerStatus → String
status_value warm = "warm"
status_value ready = "ready"
status_value running = "running"
status_value idle = "idle"
status_value draining = "draining"
status_value destroyed = "destroyed"

-- `ContainerStatus(value)`
pub status_of : String → Option ContainerStatus
status_of v =
    if v == "warm"
    then some warm
    else if v == "ready"
    then some ready
    else if v == "running"
    then some running
    else if v == "idle"
    then some idle
    else if v == "draining"
    then some draining
    else if v == "destroyed"
    then some destroyed
    else none

pub record ContainerInfo : Type 0 where
  pub id : String
  pub conversation_id : String
  pub agent_socket : String
  pub proxy_socket : String
  pub created_at : ℕ
  pub last_active_at : ℕ
  pub status : ContainerStatus

abbrev pub Hash : Type 0
Hash = List (String × String)

-- `data[key]`, where a missing key raises a KeyError.
get_field : String → Hash → Option String
get_field k [] = none
get_field k ((j, v) ∷ h) = if j == k then some v else get_field k h

infixl 5 ◌>>=◌
abbrev ◌>>=◌ {ℓ κ} : {A : Type ℓ} {B : Type κ} → Option A → (A → Option B) → Option B
none >>= f = none
some a >>= f = f a

unfoldable pub to_redis_hash : (ℕ → String) → ContainerInfo → Hash
unfolding status_value
to_redis_hash isoformat i =
    ("container_id", i.id)
    ∷ ("conversation_id", i.conversation_id)
    ∷ ("agent_socket", i.agent_socket)
    ∷ ("proxy_socket", i.proxy_socket)
    ∷ ("created_at", isoformat i.created_at)
    ∷ ("last_active_at", isoformat i.last_active_at)
    ∷ ("status", status_value i.status)
    ∷ []

unfoldable pub from_redis_hash : (String → Option ℕ) → Hash → Option ContainerInfo
unfolding get_field status_of
from_redis_hash fromisoformat hash = do
  id ← get_field "container_id" hash
  conversation_id ← get_field "conversation_id" hash
  agent_socket ← get_field "agent_socket" hash
  proxy_socket ← get_field "proxy_socket" hash
  created ← get_field "created_at" hash
  created_at ← fromisoformat created
  active ← get_field "last_active_at" hash
  last_active_at ← fromisoformat active
  value ← get_field "status" hash
  status ← status_of value
  some (record {
    id = id;
    conversation_id = conversation_id;
    agent_socket = agent_socket;
    proxy_socket = proxy_socket;
    created_at = created_at;
    last_active_at = last_active_at;
    status = status;
  })

unfoldable pub touch : ℕ → ContainerInfo → ContainerInfo
touch now i = record i { last_active_at = now }
