-- ===== src/Proxy/Server/Injected.antt =====
-- Which headers an MCP server is sent.
use claude_multi_agent.Base.{
  Bool, true, false, Option, none, some, [], ◌∷◌, ◌≡◌, ◌⊎◌, refl, ap, ◌∙◌, Bool-cases, inl, inr,
  if◌then◌else◌, arith,
}
use claude_multi_agent.Execute.Stream.{Text}
use claude_multi_agent.Proxy.Words.{codes}
use claude_multi_agent.Proxy.Whitelist.{same_text}
use claude_multi_agent.Proxy.Whitelist.Subdomains.{same_text-eq, same_text_refl}
use claude_multi_agent.Proxy.Headers.{
  Headers, get_header, set_header, update, is_hop_by_hop, forwardable,
}
use claude_multi_agent.Proxy.Connection.{Python}
use claude_multi_agent.Proxy.Answer.{McpHeaderRule, with_host, mcp_headers}

abbrev pub or_else : {A : Type 0} → Option A → Option A → Option A
or_else (some a) o = some a
or_else none o = o

-- The value that a list of settings leaves, the last one for the name.
abbrev pub last_value : Text → Headers → Option Text
last_value k [] = none
last_value k ((j, v) ∷ hs) = or_else (last_value k hs) (if same_text j k then some v else none)

pub same_text_swap : (a b : Text) → same_text a b ≡ same_text b a
unfolding same_text
same_text_swap [] [] = refl
same_text_swap [] (d ∷ ds) = refl
same_text_swap (c ∷ cs) [] = refl
same_text_swap (c ∷ cs) (d ∷ ds) = ground (arith, same_text_swap cs ds)

pub same_text-same : (a b c : Text) → same_text a b ≡ true → same_text a c ≡ same_text b c
same_text-same a b c h = ap (λ x. same_text x c) (same_text-eq a b h)

get_header-if :
    (k : Text) (b : Bool) (hs js : Headers)
    → get_header k (if b then hs else js) ≡ (if b then get_header k hs else get_header k js)
get_header-if k true hs js = refl
get_header-if k false hs js = refl

get_header-set_header :
    (k j v : Text) (hs : Headers)
    → get_header k (set_header j v hs) ≡ (if same_text j k then some v else get_header k hs)
unfolding get_header set_header
get_header-set_header k j v [] = refl
get_header-set_header k j v ((i, u) ∷ hs) =
    get_header-if k (same_text i j) ((i, v) ∷ hs) ((i, u) ∷ set_header j v hs)
    ∙ ground (
      arith,
      get_header-set_header k j v hs,
      same_text-same i j k,
      same_text-same i k j,
      same_text_swap j k,
    )

get_header-update :
    (k : Text) (hs new : Headers)
    → get_header k (update hs new) ≡ or_else (last_value k new) (get_header k hs)
unfolding update
get_header-update k hs [] = refl
get_header-update k hs ((j, v) ∷ new) =
    ground (arith, get_header-update k (set_header j v hs) new, get_header-set_header k j v hs)

if_again :
    (b : Bool) (x y z : Option Text) → (if b then if b then x else y else z) ≡ (if b then x else z)
if_again true x y z = refl
if_again false x y z = refl

if_same : (b : Bool) (x : Option Text) → (if b then x else x) ≡ x
if_same true x = refl
if_same false x = refl

module _ (python : Python) where
  open python use {lower, hostname}

  get_header-forwardable :
      (k : Text) (hs : Headers)
      → get_header k (forwardable lower hs)
        ≡ (if is_hop_by_hop lower k then none else get_header k hs)
  unfolding get_header forwardable
  get_header-forwardable k [] = ground arith
  get_header-forwardable k ((j, v) ∷ hs) =
      get_header-if k (is_hop_by_hop lower j) (forwardable lower hs) ((j, v) ∷ forwardable lower hs)
      ∙ step (Bool-cases (same_text j k)) (get_header-forwardable k hs)
    where
      step :
          (same_text j k ≡ true) ⊎ (same_text j k ≡ false)
          → get_header k (forwardable lower hs)
            ≡ (if is_hop_by_hop lower k then none else get_header k hs)
          → (if is_hop_by_hop lower j
              then get_header k (forwardable lower hs)
              else if same_text j k
              then some v
              else get_header k (forwardable lower hs))
            ≡ (if is_hop_by_hop lower k
                then none
                else if same_text j k
                then some v
                else get_header k hs)
      step (inl e) ih = rw ih (
          rw (same_text-eq j k e) (
            rw (same_text_refl k)
              (if_again (is_hop_by_hop lower k) none (get_header k hs) (some v))))
      step (inr e) ih = rw ih (
          rw e (
            if_same (is_hop_by_hop lower j)
              (if is_hop_by_hop lower k then none else get_header k hs)))

  -- The host of the address, where it has one.
  abbrev pub host_header : Option (Option Text) → Option Text
  host_header (some (some (c ∷ host))) = some (c ∷ host)
  host_header _ = none

  with_host_lem :
      (k : Text) (o : Option (Option Text)) (hs given : Headers)
      → with_host python o hs ≡ some given
      → get_header k given
        ≡ or_else (if same_text (codes "Host") k then host_header o else none) (get_header k hs)
  unfolding with_host
  with_host_lem k none hs given h = cc
  with_host_lem k (some none) hs given h = ground arith
  with_host_lem k (some (some [])) hs given h = ground arith
  with_host_lem k (some (some (c ∷ host))) hs given h =
      ground (arith, get_header-set_header k (codes "Host") (c ∷ host) hs)

  -- What an MCP server is sent: under each name the value that the rule sets for it; otherwise, for
  -- "Host", the host of the address, if it has one; otherwise what the container sent, unless the name
  -- is one of those that are not passed on, in whatever letter case.
  pub mcp_headers_lem :
      (rule : McpHeaderRule) (url : Text) (headers given : Headers)
      → mcp_headers python rule url headers ≡ some given
      → (k : Text)
      → get_header k given
        ≡ or_else (last_value k rule.headers) (
            or_else
              (if same_text (codes "Host") k then host_header (hostname url) else none)
              (if is_hop_by_hop lower k then none else get_header k headers))
  unfolding mcp_headers
  mcp_headers_lem rule url headers given h k =
      from (with_host python (hostname url) (forwardable lower headers)) refl h
    where
      from :
          (o : Option Headers)
          → with_host python (hostname url) (forwardable lower headers) ≡ o
          → elim o [ none ↦ none | some hs ↦ some (update hs rule.headers) ] ≡ some given
          → get_header k given
            ≡ or_else (last_value k rule.headers) (
                or_else
                  (if same_text (codes "Host") k then host_header (hostname url) else none)
                  (if is_hop_by_hop lower k then none else get_header k headers))
      from none e q = cc
      from (some hs) e q =
          let same : update hs rule.headers ≡ given = cc q in
          rw (← same) (
            rw (get_header-update k hs rule.headers) (
              rw (with_host_lem k (hostname url) (forwardable lower headers) hs e)
                (rw (get_header-forwardable k headers) refl)))
