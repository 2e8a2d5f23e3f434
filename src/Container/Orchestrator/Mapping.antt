-- ===== src/Container/Orchestrator/Mapping.antt =====
-- A conversation is mapped to the container that it is given.
use text.Mathlib.Text.{◌==◌}
use text.Mathlib.TextEquality.{eq_iff}
use claude_multi_agent.Base.{
  ℕ, String, Bool, true, false, Option, none, some, [], ◌∷◌, Outcome, returned, raised, ◌≡◌, refl,
  sym, ◌∙◌, subst, if◌then◌else◌, arith, Option-cases, inl, inr,
}
use claude_multi_agent.Base.Tables.{find, put, find-put_same}
use claude_multi_agent.Base.Steps.{pure, and_then, ◌>>=◌, modify}
use claude_multi_agent.Container.{
  ready, ContainerInfo, status_value, Hash, from_redis_hash, to_redis_hash, get_field, touch,
}
use claude_multi_agent.Container.RoundTrip.{status_of-status_value}
use claude_multi_agent.Container.Orchestrator.{
  container_ttl_seconds, expire_if, Services, State, ask, call, parse, get_container, hset, hash_at,
  save, start_proxy, cleanup_container, fresh, reuse, reuse_or_replace, by_existing, get_or_create,
}

get_field-put :
    (j k v : String) (h : Hash)
    → get_field j (put k v h) ≡ (if k == j then some v else get_field j h)
unfolding get_field put
get_field-put j k v [] = refl
get_field-put j k v ((i, u) ∷ h) =
    ground (arith, eq_iff k j, eq_iff i k, eq_iff i j, get_field-put j k v h)

module _ {W : Type 0} (services : Services W)
    (printed : (t : ℕ) → services.fromisoformat (services.isoformat t) ≡ some t) where
  open services use {isoformat, fromisoformat}

  saved_lem :
      (i : ContainerInfo) (h : Hash)
      → from_redis_hash fromisoformat (hset services (to_redis_hash isoformat i) h) ≡ some i
  unfolding from_redis_hash to_redis_hash
  saved_lem i h =
      simp (get_field-put)
        (rw (printed i.created_at, printed i.last_active_at, status_of-status_value i.status) refl)

  -- The container that the seven fields make.
  assemble :
      Option String
      → Option String
      → Option String
      → Option String
      → Option String
      → Option String
      → Option String
      → Option ContainerInfo
  assemble (some a) (some b) (some c) (some d) (some e) (some f) (some g) =
      from_redis_hash fromisoformat (
        ("container_id", a)
        ∷ ("conversation_id", b)
        ∷ ("agent_socket", c)
        ∷ ("proxy_socket", d)
        ∷ ("created_at", e)
        ∷ ("last_active_at", f)
        ∷ ("status", g)
        ∷ [])
  assemble _ _ _ _ _ _ _ = none

  assembled :
      (h : Hash)
      → from_redis_hash fromisoformat h
        ≡ assemble
            (get_field "container_id" h)
            (get_field "conversation_id" h)
            (get_field "agent_socket" h)
            (get_field "proxy_socket" h)
            (get_field "created_at" h)
            (get_field "last_active_at" h)
            (get_field "status" h)
  unfolding assemble from_redis_hash
  assembled h = ground arith

  reassembled :
      (a b c d e f g : Option String) (i : ContainerInfo) (now : ℕ)
      → assemble a b c d e f g ≡ some i
      → assemble a b c d e (some (isoformat now)) (some (status_value i.status))
        ≡ some (touch now i)
  unfolding assemble from_redis_hash touch
  reassembled a b c d e f g i now h = ground (arith, printed now, status_of-status_value i.status)

  updated_lem :
      (i : ContainerInfo) (now : ℕ) (h : Hash)
      → from_redis_hash fromisoformat h ≡ some i
      → from_redis_hash fromisoformat
          (put "status" (status_value i.status) (put "last_active_at" (isoformat now) h))
        ≡ some (touch now i)
  updated_lem i now h e =
      assembled (put "status" (status_value i.status) (put "last_active_at" (isoformat now) h))
      ∙ simp (get_field-put) (
          reassembled (get_field "container_id" h) (get_field "conversation_id" h)
            (get_field "agent_socket" h) (get_field "proxy_socket" h) (get_field "created_at" h)
            (get_field "last_active_at" h) (get_field "status" h) i now (sym (assembled h) ∙ e))

  parsed_lem :
      (h : Hash) (i : ContainerInfo) (s : State W)
      → from_redis_hash fromisoformat h ≡ some i
      → parse services (some h) s ≡ (returned (some i), s)
  unfolding parse from_redis_hash get_field
  parsed_lem [] i s e = cc
  parsed_lem (f ∷ fs) i s e = unfold from_redis_hash in rw (e, parse) refl

  -- The container that a step returns is that of the conversation, and is found under it.
  abbrev pub Mapped : String → Outcome ContainerInfo String × State W → Type 0
  Mapped c (returned i, s) =
      (i.conversation_id ≡ c) × ((get_container services c s).0 ≡ returned (some i))
  Mapped c (raised e, s) = Unit

  written-Mapped :
      (c : String) (i : ContainerInfo) (h : Hash) (s : State W)
      → i.conversation_id ≡ c
      → from_redis_hash fromisoformat h ≡ some i
      → Mapped c (returned i, record s { containers = put c h s.containers })
  unfolding get_container
  written-Mapped c i h s same e = (
    same,
    rw (find-put_same c h s.containers)
        (rw (parsed_lem h i (record s { containers = put c h s.containers }) e) refl),
  )

  started-Mapped :
      (c : String) (i : ContainerInfo) (r : Outcome (Unit {0}) String × State W)
      → i.conversation_id ≡ c
      → Mapped c (and_then r (λ _. modify (save services i) >>= λ _. pure i))
  unfolding and_then
  started-Mapped c i (raised e, s) same = tt
  started-Mapped c i (returned u, s) same = rw (← same) (
      written-Mapped i.conversation_id i
        (hset services (to_redis_hash isoformat i)
          (hash_at services (find i.conversation_id s.containers)))
        (record s {
          reverse = put i.id i.conversation_id s.reverse;
          containers_ttl = put i.conversation_id container_ttl_seconds s.containers_ttl;
          reverse_ttl = put i.id container_ttl_seconds s.reverse_ttl;
        })
        refl (saved_lem i (hash_at services (find i.conversation_id s.containers))))

  acquired-Mapped :
      (c : String) (r : Outcome ContainerInfo String × State W)
      → Mapped c (
          and_then r λ acquired. ask services services.now >>= λ now.
          (start_proxy services
              (touch now (record acquired { conversation_id = c; status = ready }))
            >>= λ _.
                modify (
                  save services
                    (touch now (record acquired { conversation_id = c; status = ready })))
                >>= λ _.
                    pure (touch now (record acquired { conversation_id = c; status = ready }))))
  unfolding and_then touch
  acquired-Mapped c (raised e, s) = tt
  acquired-Mapped c (returned a, s) =
      started-Mapped c
        (touch (services.now s.world).0 (record a { conversation_id = c; status = ready })) _ refl

  fresh-Mapped : (c : String) (s : State W) → Mapped c (fresh services c s)
  unfolding fresh
  fresh-Mapped c s = acquired-Mapped c (call services services.acquire s)

  cleaned-Mapped :
      (c : String) (r : Outcome (Unit {0}) String × State W)
      → Mapped c (and_then r (λ _. fresh services c))
  unfolding and_then
  cleaned-Mapped c (raised e, s) = tt
  cleaned-Mapped c (returned u, s) = fresh-Mapped c s

  module _ (c : String) (h : Hash) (e : ContainerInfo) (same : e.conversation_id ≡ c)
      (found : from_redis_hash fromisoformat h ≡ some e) where
    reuse-Mapped :
        (s : State W)
        → find e.conversation_id s.containers ≡ some h
        → Mapped e.conversation_id (reuse services e s)
    unfolding reuse and_then touch
    reuse-Mapped s at_c =
        let now = (services.now s.world).0 in
        rw at_c (
          written-Mapped e.conversation_id (touch now e)
            (put "status" (status_value e.status) (put "last_active_at" (isoformat now) h))
            (record s {
              containers_ttl = put e.conversation_id container_ttl_seconds s.containers_ttl;
              reverse_ttl = expire_if (find e.id s.reverse) e.id s.reverse_ttl;
              world = (services.now s.world).1;
            })
            refl (updated_lem e now h found))

    chosen-Mapped :
        (s : State W) (healthy : Bool)
        → find c s.containers ≡ some h
        → Mapped c (reuse_or_replace services c e healthy s)
    unfolding reuse_or_replace
    chosen-Mapped s true at_c =
        subst (λ x. find x s.containers ≡ some h → Mapped x (reuse services e s)) same
          (reuse-Mapped s) at_c
    chosen-Mapped s false at_c = cleaned-Mapped c (cleanup_container services e s)

  -- What is stored under a conversation names it.
  abbrev pub Filed : String → Option Hash → Type 0
  Filed c none = Unit
  Filed c (some h) =
      (e : ContainerInfo) → from_redis_hash fromisoformat h ≡ some e → e.conversation_id ≡ c

  stored-Mapped :
      (c : String) (s : State W) (o : Option Hash)
      → find c s.containers ≡ o
      → Filed c o
      → Mapped c (and_then (parse services o s) (by_existing services c))
  unfolding and_then parse by_existing
  stored-Mapped c s none at_c filed = fresh-Mapped c s
  stored-Mapped c s (some []) at_c filed = fresh-Mapped c s
  stored-Mapped c s (some (f ∷ fs)) at_c filed =
      elim (Option-cases (from_redis_hash fromisoformat (f ∷ fs))) [
        | inl e ↦ rw (e, parse) tt
        | inr (i, e) ↦
            rw (e, parse)
              (chosen-Mapped c (f ∷ fs) i (filed i e) e
                (record s { world = (services.is_healthy i.id s.world).1 })
                (services.is_healthy i.id s.world).0 at_c)
      ]

  -- Whether an existing container is used again or another one is taken, the container that
  -- `get_or_create` returns bears the conversation's identifier and is what Redis then gives for the
  -- conversation, if times are read back as they are printed and what was stored for it names it.
  pub get_or_create-Mapped :
      (c : String) (s : State W)
      → Filed c (find c s.containers)
      → Mapped c (get_or_create services c s)
  unfolding get_or_create get_container
  get_or_create-Mapped c s filed = stored-Mapped c s (find c s.containers) refl filed
