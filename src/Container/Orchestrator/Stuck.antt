-- ===== src/Container/Orchestrator/Stuck.antt =====
-- A conversation whose container could not be replaced.
use claude_multi_agent.Base.{
  ◌++◌, map, List, All, some, Option, ℕ, String, none, [], ◌∷◌, Outcome, returned, raised, ◌≡◌,
  refl,
}
use claude_multi_agent.Base.Tables.{remove, find-remove_same, find-put_same, find, put}
use claude_multi_agent.Base.Steps.{◌>>=◌, pure, pure, kept, modify, and_then}
use claude_multi_agent.Execute.Mcp.{Rules}
use claude_multi_agent.Container.{
  idle, running, touch, status_value, ContainerInfo, from_redis_hash, get_field,
}
use claude_multi_agent.Container.Orchestrator.{
  crashed, stop_proxy, cleanup_container, by_existing, stop_if, forget, relayed, execution_failed,
  Services, State, parse, get_container, update_redis, fresh, get_or_create, hash_at, hset,
}
use claude_multi_agent.Container.Orchestrator.Execute.{
  replace, replaced, after_stream, settle, run, execute, info_for,
}

-- What a number of calls of `get_or_create` for the conversation give, one after another, each with
-- services of its own.
unfoldable pub attempts :
    {W : Type 0} → String → List (Services W) → State W → List (Outcome ContainerInfo String)
attempts c [] s = []
attempts c (later ∷ laters) s = let (o, s') = get_or_create later c s in o ∷ attempts c laters s'

-- The conversation's hash stays for the whole time to live from now on, and every call raises.
abbrev pub Stuck : {W : Type 0} → String → List (Services W) → State W → Type 0
Stuck c laters s =
    (find c s.containers_ttl ≡ some 3600)
    × All (λ o. o ≡ raised "KeyError or ValueError") (attempts c laters s)

attempts_fail :
    {W : Type 0} (c : String) (laters : List (Services W)) (s : State W)
    → ((later : Services W) → get_or_create later c s ≡ (raised "KeyError or ValueError", s))
    → All (λ o. o ≡ raised "KeyError or ValueError") (attempts c laters s)
unfolding attempts
attempts_fail c [] s h = tt
attempts_fail c (later ∷ laters) s h = rw (h later) (refl, attempts_fail c laters s h)

module _ {W : Type 0} (services : Services W) where
  -- An update of a conversation that has no hash leaves one that is no container.
  update_redis-raises :
      (i : ContainerInfo) (s : State W)
      → find i.conversation_id s.containers ≡ none
      → (later : Services W)
      → get_or_create later i.conversation_id (update_redis services i s)
        ≡ (raised "KeyError or ValueError", update_redis services i s)
  unfolding get_or_create get_container and_then parse from_redis_hash get_field put
  update_redis-raises i s h later =
      rw
        (find-put_same i.conversation_id
          (hset services
            (("last_active_at", services.isoformat i.last_active_at)
              ∷ ("status", status_value i.status)
              ∷ [])
            (hash_at services (find i.conversation_id s.containers)))
          s.containers)
        (rw h refl)

  update_redis-Stuck :
      (i : ContainerInfo) (s : State W) (laters : List (Services W))
      → find i.conversation_id s.containers ≡ none
      → Stuck i.conversation_id laters (update_redis services i s)
  update_redis-Stuck i s laters h = (
    find-put_same i.conversation_id 3600 s.containers_ttl,
    attempts_fail i.conversation_id laters (update_redis services i s) (update_redis-raises i s h),
  )

  -- The step raised, and the conversation has no hash.
  abbrev Lost : {A : Type 0} → String → Outcome A String × State W → Type 0
  Lost c (returned a, s) = ⊥
  Lost c (raised e, s) = find c s.containers ≡ none

  -- The warm pool gives no container, and proxies stop.
  pub record IsDown : Type 0 where
    pub no_container : (w : W) → (e : String) × ((services.acquire w).0 ≡ raised e)
    pub stops : (id : String) (w : W) → (services.stop_proxy id w).0 ≡ returned tt

  module _ (down : IsDown) (c : String) where
    fresh-Lost : (s : State W) → find c s.containers ≡ none → Lost c (fresh services c s)
    unfolding fresh and_then
    fresh-Lost s k = let (e, h) = down.no_container s.world in rw (h, and_then) k

    get_or_create-Lost :
        (s : State W) → find c s.containers ≡ none → Lost c (get_or_create services c s)
    unfolding get_or_create get_container and_then parse by_existing
    get_or_create-Lost s h = rw (h, get_container) (fresh-Lost s h)

    stop_if-returns :
        (id : String) (o : Option Rules) (s : State W) → (stop_if services id o s).0 ≡ returned tt
    unfolding stop_if
    stop_if-returns id none s = refl
    stop_if-returns id (some rules) s = down.stops id s.world

    cleaned-Lost :
        (i : ContainerInfo) (r : Outcome (Unit {0}) String × State W)
        → i.conversation_id ≡ c
        → r.0 ≡ returned tt
        → Lost c (
            and_then (and_then r (λ _. modify (forget services i))) (λ _. get_or_create services c))
    unfolding and_then
    cleaned-Lost i (returned u, s) same h =
        get_or_create-Lost (forget services i s) (rw same (find-remove_same c s.containers))
    cleaned-Lost i (raised e, s) same h = cc

    replace-Lost :
        (i : ContainerInfo) (s : State W) → i.conversation_id ≡ c → Lost c (replace services c i s)
    unfolding replace cleanup_container stop_proxy
    replace-Lost i s same =
        cleaned-Lost i
          (stop_if services i.id (find i.id s.proxies)
            (record s { proxies = remove i.id s.proxies }))
          same
          (stop_if-returns i.id (find i.id s.proxies)
            (record s { proxies = remove i.id s.proxies }))

    settled-Stuck :
        (i : ContainerInfo) (events : List (List ℕ)) (laters : List (Services W))
        (r : Outcome ContainerInfo String × State W)
        → i.conversation_id ≡ c
        → Lost c r
        → Stuck c laters
            (and_then
              (and_then (kept r) (λ o. pure (replaced services (execution_failed ∷ []) o)))
              (λ o. settle services i o.1 >>= λ _. pure (map relayed events ++ o.0))).1
    unfolding and_then settle replaced touch
    settled-Stuck i events laters (returned a, s) same h = absurd h
    settled-Stuck i events laters (raised e, s) same h = rw (← same) (
        update_redis-Stuck (touch (services.now s.world).0 (record i { status = idle }))
          (record s { world = (services.now s.world).1 }) laters (rw same h))

    run-Stuck :
        (i : ContainerInfo) (laters : List (Services W)) (s : State W)
        → i.conversation_id ≡ c
        → ((w : W) → (services.agent i.agent_socket w).0.1 ≡ crashed)
        → Stuck c laters (run services c i s).1
    unfolding run and_then after_stream
    run-Stuck i laters s same crash = rw (crash s.world) (
        settled-Stuck i (services.agent i.agent_socket s.world).0.0 laters
          (replace services c i (record s { world = (services.agent i.agent_socket s.world).1 }))
          same (replace-Lost i _ same))

    -- If the agent of a container crashes while no other container can be had, the conversation is stuck:
    -- the `finally` of the run has written two fields under the key that the clean-up had deleted, and
    -- given it its full time to live. However often `get_or_create` is called for the conversation from
    -- then on, and whatever services there are at each call, it raises each time, as long as nothing else
    -- writes or removes the hash and it has not expired.
    pub execute-Stuck :
        (i : ContainerInfo) (laters : List (Services W)) (s : State W)
        → i.conversation_id ≡ c
        → ((w : W) → (services.agent i.agent_socket w).0.1 ≡ crashed)
        → Stuck c laters (execute services c (some i) s).1
    unfolding execute and_then info_for touch
    execute-Stuck i laters s same crash =
        run-Stuck (touch (services.now s.world).0 (record i { status = running })) laters _ same
          crash
