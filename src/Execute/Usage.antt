-- ===== src/Execute/Usage.antt =====
-- Token usage and its cost: `_normalize_usage` of app/services/execute_service.py and
-- `calculate_cost` of app/models/model.py.
use claude_multi_agent.Base.{ℕ, ◌+◌, ◌*◌, ◌≤◌, Option, none, some, ◌==◌, arith, if◌then◌else◌}

-- `cache_creation` of the SDK's usage: a dictionary, or something else.
pub data CacheCreation : Type 0 where
  dict : Option ℕ → Option ℕ → CacheCreation
  not_dict : CacheCreation

-- The keys of `raw_usage` that the code reads; `none` is a key that is not there. Token counts are
-- naturals.
pub record RawUsage : Type 0 where
  pub input_tokens : Option ℕ
  pub output_tokens : Option ℕ
  pub cache_creation_5m_tokens : Option ℕ
  pub cache_creation_1h_tokens : Option ℕ
  pub cache_read_tokens : Option ℕ
  pub cache_creation : Option CacheCreation
  pub cache_creation_input_tokens : Option ℕ
  pub cache_read_input_tokens : Option ℕ

pub record Usage : Type 0 where
  pub input_tokens : ℕ
  pub output_tokens : ℕ
  pub cache_creation_5m_tokens : ℕ
  pub cache_creation_1h_tokens : ℕ
  pub cache_read_tokens : ℕ
  pub total_tokens : ℕ

abbrev or_zero : Option ℕ → ℕ
or_zero none = 0
or_zero (some n) = n

-- `cache_creation.get(…)`, where `raw_usage.get("cache_creation", {})` is a dictionary.
ephemeral_5m : Option CacheCreation → ℕ
ephemeral_5m (some (dict a b)) = or_zero a
ephemeral_5m _ = 0

ephemeral_1h : Option CacheCreation → ℕ
ephemeral_1h (some (dict a b)) = or_zero b
ephemeral_1h _ = 0

cache_parts : RawUsage → Option ℕ → ℕ × ℕ × ℕ
cache_parts r (some n) = (n, or_zero r.cache_creation_1h_tokens, or_zero r.cache_read_tokens)
cache_parts r none =
    let five = ephemeral_5m r.cache_creation in
    (
      if five == 0 then or_zero r.cache_creation_input_tokens else five,
      ephemeral_1h r.cache_creation,
      or_zero r.cache_read_input_tokens,
    )

unfoldable pub normalize_usage : RawUsage → Usage
unfolding cache_parts ephemeral_5m ephemeral_1h
normalize_usage r =
    let i = or_zero r.input_tokens in
    let o = or_zero r.output_tokens in
    let (five, hour, read) = cache_parts r r.cache_creation_5m_tokens in
    record {
      input_tokens = i;
      output_tokens = o;
      cache_creation_5m_tokens = five;
      cache_creation_1h_tokens = hour;
      cache_read_tokens = read;
      total_tokens = i + o + five + hour + read;
    }

-- The prices of a model, in millionths of a dollar for a thousand tokens: DECIMAL(10, 6) is exact
-- at that scale.
pub record Prices : Type 0 where
  pub input_token_price : ℕ
  pub output_token_price : ℕ
  pub cache_creation_5m_price : ℕ
  pub cache_creation_1h_price : ℕ
  pub cache_read_price : ℕ

-- `Model.calculate_cost`, in thousandths of a millionth of a dollar.
unfoldable pub calculate_cost : Prices → ℕ → ℕ → ℕ → ℕ → ℕ → ℕ
calculate_cost p i o five hour read =
    i * p.input_token_price
    + o * p.output_token_price
    + five * p.cache_creation_5m_price
    + hour * p.cache_creation_1h_price
    + read * p.cache_read_price

abbrev pub usage_cost : Prices → Usage → ℕ
usage_cost p u =
    calculate_cost p u.input_tokens u.output_tokens u.cache_creation_5m_tokens
      u.cache_creation_1h_tokens u.cache_read_tokens

scaled_bounds : (n lo hi p : ℕ) → (lo ≤ p) × (p ≤ hi) → (n * lo ≤ n * p) × (n * p ≤ n * hi)
scaled_bounds n lo hi p h = grind arith

-- A model whose prices per thousand tokens all lie between two bounds costs, for any reported
-- usage, between the bounds times the normalised total: no kind of token is left out of the total
-- or of the cost, and none is counted twice.
pub usage_cost_bounds :
    (p : Prices) (lo hi : ℕ) (r : RawUsage)
    → (lo ≤ p.input_token_price) × (p.input_token_price ≤ hi)
    → (lo ≤ p.output_token_price) × (p.output_token_price ≤ hi)
    → (lo ≤ p.cache_creation_5m_price) × (p.cache_creation_5m_price ≤ hi)
    → (lo ≤ p.cache_creation_1h_price) × (p.cache_creation_1h_price ≤ hi)
    → (lo ≤ p.cache_read_price) × (p.cache_read_price ≤ hi)
    → let u = normalize_usage r in
      (u.total_tokens * lo ≤ usage_cost p u) × (usage_cost p u ≤ u.total_tokens * hi)
unfolding calculate_cost normalize_usage
usage_cost_bounds p lo hi r a b c d e =
    let (five, hour, read) = cache_parts r r.cache_creation_5m_tokens in
    omega (
      arith,
      scaled_bounds (or_zero r.input_tokens) lo hi p.input_token_price a,
      scaled_bounds (or_zero r.output_tokens) lo hi p.output_token_price b,
      scaled_bounds five lo hi p.cache_creation_5m_price c,
      scaled_bounds hour lo hi p.cache_creation_1h_price d,
      scaled_bounds read lo hi p.cache_read_price e,
    )
