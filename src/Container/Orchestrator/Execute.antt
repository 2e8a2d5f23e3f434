-- ===== src/Container/Orchestrator/Execute.antt =====
-- `execute` of app/services/container/orchestrator.py: the events of the agent in the container, and
-- what is done when they break off.
use claude_multi_agent.Base.{
  String, Bool, true, false, Option, none, some, List, [], ◌∷◌, ◌++◌, map,
}
use claude_multi_agent.Base.Steps.{Action, pure, ◌>>=◌, modify, attempt}
use claude_multi_agent.Container.{running, idle, ContainerInfo, touch}
use claude_multi_agent.Container.Orchestrator.{
  Ending, completed, timed_out, connection_error, crashed, Chunk, relayed, execution_timeout,
  execution_failed, container_recovered, Services, State, ask, update_redis, restart_proxy,
  cleanup_container, get_or_create,
}

module _ {W : Type 0} (services : Services W) where
  -- The container is given up, and another one is taken for the conversation.
  unfoldable pub replace : String → ContainerInfo → Action (State W) ContainerInfo
  replace conversation_id i = do
    _ ← cleanup_container services i
    get_or_create services conversation_id

  abbrev pub recovery_events : Option ContainerInfo → List Chunk
  recovery_events none = []
  recovery_events (some i) = container_recovered ∷ []

  abbrev pub is_recovered : Option ContainerInfo → Bool
  is_recovered none = false
  is_recovered (some i) = true

  unfoldable pub replaced : List Chunk → Option ContainerInfo → List Chunk × Bool
  replaced told r = (told ++ recovery_events r, is_recovered r)

  restarted : String → ContainerInfo → Option (Unit {0}) → Action (State W) (List Chunk × Bool)
  unfolding replaced
  restarted conversation_id i (some u) = pure (execution_failed ∷ container_recovered ∷ [], false)
  restarted conversation_id i none = do
    r ← attempt (replace conversation_id i)
    pure (replaced (execution_failed ∷ []) r)

  -- What is yielded after the agent's events, and whether another container has taken over.
  unfoldable pub after_stream :
      String → ContainerInfo → Ending → Action (State W) (List Chunk × Bool)
  unfolding restarted replaced
  after_stream conversation_id i completed = pure ([], false)
  after_stream conversation_id i timed_out = do
    r ← attempt (replace conversation_id i)
    pure (execution_timeout ∷ [], is_recovered r)
  after_stream conversation_id i connection_error = do
    r ← attempt (restart_proxy services i)
    restarted conversation_id i r
  after_stream conversation_id i crashed = do
    r ← attempt (replace conversation_id i)
    pure (replaced (execution_failed ∷ []) r)

  -- The `finally`.
  unfoldable pub settle : ContainerInfo → Bool → Action (State W) (Unit {0})
  settle i true = pure tt
  settle i false = do
    now ← ask services services.now
    modify (update_redis services (touch now (record i { status = idle })))

  unfoldable pub info_for : String → Option ContainerInfo → Action (State W) ContainerInfo
  info_for conversation_id none = get_or_create services conversation_id
  info_for conversation_id (some i) = pure i

  unfoldable pub run : String → ContainerInfo → Action (State W) (List Chunk)
  unfolding after_stream settle
  run conversation_id i = do
    (events, ending) ← ask services (services.agent i.agent_socket)
    (told, recovered) ← after_stream conversation_id i ending
    _ ← settle i recovered
    pure (map relayed events ++ told)

  unfoldable pub execute : String → Option ContainerInfo → Action (State W) (List Chunk)
  unfolding run info_for
  execute conversation_id container_info = do
    info ← info_for conversation_id container_info
    now ← ask services services.now
    let i = touch now (record info { status = running })
    _ ← modify (update_redis services i)
    run conversation_id i
