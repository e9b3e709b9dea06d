-- ===== src/Models/Usage.antt =====
-- models.py, TokenUsage: the counts of one thread as the provider reports them.
use autonomous_math_ai.Base.{ℕ, ◌+◌, ◌-◌, Bool, ◌||◌, ◌&&◌, ltb, if◌then◌else◌, nat_beq, not}

pub record TokenUsage : Type 0 where
  pub input_tokens : ℕ
  pub cached_input_tokens : ℕ
  pub uncached_input_tokens : ℕ
  pub cache_write_input_tokens : ℕ
  pub output_tokens : ℕ
  pub reasoning_output_tokens : ℕ
  pub total_tokens : ℕ

abbrev pub no_usage : TokenUsage
no_usage = record {
  input_tokens = 0;
  cached_input_tokens = 0;
  uncached_input_tokens = 0;
  cache_write_input_tokens = 0;
  output_tokens = 0;
  reasoning_output_tokens = 0;
  total_tokens = 0;
}

-- `bool(n)`
abbrev truthy : ℕ → Bool
truthy n = ltb 0 n

-- `__post_init__`
unfoldable pub post_init : TokenUsage → TokenUsage
post_init u =
    if nat_beq u.uncached_input_tokens 0 && (truthy u.input_tokens || truthy u.cached_input_tokens)
    then record u { uncached_input_tokens = u.input_tokens - u.cached_input_tokens }
    else u

-- `continuation_budget_tokens`
unfoldable pub continuation_budget_tokens : TokenUsage → ℕ
continuation_budget_tokens u =
    if truthy u.output_tokens || truthy u.reasoning_output_tokens
    then u.output_tokens + u.reasoning_output_tokens
    else if not (
        truthy u.input_tokens
        || (truthy u.cached_input_tokens
            || (truthy u.uncached_input_tokens || truthy u.cache_write_input_tokens)))
    then u.total_tokens
    else 0
