-- ===== src/Proxy/Server/Routes.antt =====
-- Where requests go.
use mathlib.Core.List.{append-nil}
use claude_multi_agent.Base.{
  ==→eq, ℕ, Bool, true, false, Option, none, some, List, [], ◌∷◌, ◌++◌, ◌≡◌, ◌⊎◌, All, refl, ap,
  sym, ◌∙◌, inl, inr, if◌then◌else◌, ◌==◌,
}
use claude_multi_agent.Execute.Stream.{Text}
use claude_multi_agent.Proxy.Words.{break_at, cons_to, split_on, cons_word}
use claude_multi_agent.Proxy.Connection.{Python}
use claude_multi_agent.Proxy.Answer.{
  server_and_path, port_or_default, target_of, connect_target, connect_host,
}

abbrev pub NoMark : ℕ → Text → Type 0
NoMark mark t = All (λ c. (c == mark) ≡ false) t

abbrev pub put_back : ℕ → Text × Option Text → Text
put_back mark (before, none) = before
put_back mark (before, some rest) = before ++ (mark ∷ rest)

-- What stands before the mark has none, and the parts make the text.
abbrev Breaks : ℕ → Text → Text × Option Text → Type 0
Breaks mark t r = (put_back mark r ≡ t) × NoMark mark r.0

cons_to-Breaks :
    (mark c : ℕ) (t : Text) (r : Text × Option Text)
    → (c == mark) ≡ false
    → Breaks mark t r
    → Breaks mark (c ∷ t) (cons_to c r)
cons_to-Breaks mark c t (before, none) e h = (ap (λ x. c ∷ x) (h.0), (e, h.1))
cons_to-Breaks mark c t (before, some rest) e h = (ap (λ x. c ∷ x) (h.0), (e, h.1))

if-Breaks :
    (mark c : ℕ) (t : Text) (r : Text × Option Text) (b : Bool)
    → (c == mark) ≡ b
    → Breaks mark t r
    → Breaks mark (c ∷ t) (if b then ([], some t) else cons_to c r)
if-Breaks mark c t r true e h = (ap (λ x. x ∷ t) (sym (==→eq c mark e)), tt)
if-Breaks mark c t r false e h = cons_to-Breaks mark c t r e h

break_at-Breaks : (mark : ℕ) (t : Text) → Breaks mark t (break_at mark t)
unfolding break_at
break_at-Breaks mark [] = (refl, tt)
break_at-Breaks mark (c ∷ t) =
    if-Breaks mark c t (break_at mark t) (c == mark) refl (break_at-Breaks mark t)

-- The first word is the text before the first mark.
abbrev First : Text → List Text → Type 0
First x [] = ⊥
First x (w ∷ ws) = w ≡ x

cons_word-First : (c : ℕ) (x : Text) (ws : List Text) → First x ws → First (c ∷ x) (cons_word c ws)
cons_word-First c x [] h = absurd h
cons_word-First c x (w ∷ ws) h = ap (λ y. c ∷ y) h

if-First :
    (c : ℕ) (b : Bool) (t : Text) (r : Text × Option Text) (ws : List Text)
    → First r.0 ws
    → First (if b then ([], some t) else cons_to c r).0 (if b then [] ∷ ws else cons_word c ws)
if-First c true t r ws h = refl
if-First c false t (before, rest) ws h = cons_word-First c before ws h

split_on-First : (mark : ℕ) (t : Text) → First (break_at mark t).0 (split_on mark t)
unfolding split_on break_at
split_on-First mark [] = refl
split_on-First mark (c ∷ t) =
    if-First c (c == mark) t (break_at mark t) (split_on mark t) (split_on-First mark t)

module _ (python : Python) where
  -- Empty, or from a slash on.
  abbrev pub IsPath : Text → Type 0
  IsPath [] = Unit
  IsPath (c ∷ t) = c ≡ 47

  -- The path behind "/mcp/" is taken apart without loss: the server's name and the rest make it up, the
  -- name has no slash, and the rest is empty or begins with one.
  pub server_and_path_lem :
      (mcp_path : Text)
      → ((server_and_path python mcp_path).0 ++ (server_and_path python mcp_path).1 ≡ mcp_path)
        × NoMark 47 (server_and_path python mcp_path).0
        × IsPath (server_and_path python mcp_path).1
  unfolding server_and_path
  server_and_path_lem mcp_path = from (break_at 47 mcp_path) (break_at-Breaks 47 mcp_path)
    where
      from :
          (r : Text × Option Text)
          → Breaks 47 mcp_path r
          → (r.0 ++ elim r.1 [ none ↦ [] | some path ↦ 47 ∷ path ] ≡ mcp_path)
            × NoMark 47 r.0
            × IsPath (elim r.1 [ none ↦ [] | some path ↦ 47 ∷ path ])
      from (before, none) h = (append-nil before ∙ h.0, h.1, tt)
      from (before, some rest) h = (h.0, h.1, refl)

  -- The host that a tunnel goes to is the one that the whitelist is asked for, or else the text is not
  -- of the form "host:port" with a number, and it is taken as a whole, with the port 443.
  pub connect_target_lem :
      (host_port : Text)
      → ((connect_target python host_port).0 ≡ connect_host python host_port)
        ⊎ (connect_target python host_port ≡ (host_port, 443))
  unfolding connect_target
  connect_target_lem host_port = from (split_on 58 host_port) (split_on-First 58 host_port)
    where
      by_port :
          (host : Text) (o : Option ℕ)
          → host ≡ connect_host python host_port
          → ((port_or_default python host_port host o).0 ≡ connect_host python host_port)
            ⊎ (port_or_default python host_port host o ≡ (host_port, 443))
      by_port host none h = inr refl
      by_port host (some n) h = inl h

      from :
          (ws : List Text)
          → First (connect_host python host_port) ws
          → ((target_of python host_port ws).0 ≡ connect_host python host_port)
            ⊎ (target_of python host_port ws ≡ (host_port, 443))
      from [] h = inr refl
      from (host ∷ []) h = inr refl
      from (host ∷ port ∷ []) h = by_port host (python.read_int port) h
      from (host ∷ port ∷ w ∷ ws) h = inr refl
