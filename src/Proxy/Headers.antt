-- ===== src/Proxy/Headers.antt =====
-- The headers of a request on their way through app/services/proxy/credential_proxy.py: a dictionary
-- from names to values, in the order of insertion.
use claude_multi_agent.Base.{Bool, ◌||◌, Option, none, some, List, [], ◌∷◌, if◌then◌else◌}
use claude_multi_agent.Execute.Stream.{Text}
use claude_multi_agent.Proxy.Words.{codes}
use claude_multi_agent.Proxy.Whitelist.{same_text}

abbrev pub Headers : Type 0
Headers = List (Text × Text)

unfoldable pub get_header : Text → Headers → Option Text
get_header k [] = none
get_header k ((j, v) ∷ hs) = if same_text j k then some v else get_header k hs

-- `headers[k] = v`
unfoldable pub set_header : Text → Text → Headers → Headers
set_header k v [] = (k, v) ∷ []
set_header k v ((j, u) ∷ hs) = if same_text j k then (j, v) ∷ hs else (j, u) ∷ set_header k v hs

-- `headers.update(new)`
unfoldable pub update : Headers → Headers → Headers
update hs [] = hs
update hs ((k, v) ∷ new) = update (set_header k v hs) new

module _ (lower : Text → Text) where
  -- The names that a proxy does not pass on, in lower case.
  abbrev pub is_hop_by_hop : Text → Bool
  is_hop_by_hop k =
      same_text (lower k) (codes "host")
      || same_text (lower k) (codes "connection")
      || same_text (lower k) (codes "proxy-connection")
      || same_text (lower k) (codes "keep-alive")
      || same_text (lower k) (codes "transfer-encoding")

  -- `forward_headers`
  unfoldable pub forwardable : Headers → Headers
  forwardable [] = []
  forwardable ((k, v) ∷ hs) =
      let rest = forwardable hs in if is_hop_by_hop k then rest else (k, v) ∷ rest
