-- ===== src/Governor/Decide.antt =====
-- token_governor.py, `decide` and `_highest_rate_percent`.
use autonomous_math_ai.Base.{
  ℕ, zero, suc, ◌<◌, ◌/◌, ◌≤◌, ◌≡◌, ◌⊎◌, ◌↔◌, Bool, true, false, ◌||◌, Option, none, some, List, [],
  ◌∷◌, ◌++◌, arith, ltb, if◌then◌else◌,
}
use autonomous_math_ai.Base.Float.{Float, fmax, is_zero}
use autonomous_math_ai.Governor.{TokenGovernor}

pub data Action : Type 0 where
  stop drain_to_stop drain degrade run : Action

pub data BudgetKind : Type 0 where
  token cost : BudgetKind

pub data Reason : Type 0 where
  rate_limit_reached near_limit soft_threshold within_budget : Reason
  budget_reached : BudgetKind → Reason

pub record GovernorDecision : Type 0 where
  pub action : Action
  pub reason : Reason
  pub max_research : ℕ
  pub allow_exploration : Bool
  pub use_economy_routes : Bool

-- One limit as the provider reports it: is a limit reached (`rateLimitReachedType` set or
-- `spendControlReached` true), and the used percentages that are there.
pub record RateSnapshot (F : Type 0) : Type 0 where
  pub reached : Bool
  pub primary : Option F
  pub secondary : Option F

-- `rateLimits` and the values of `rateLimitsByLimitId`
pub record RateLimits (F : Type 0) : Type 0 where
  pub rate_limits : Option (RateSnapshot F)
  pub by_limit_id : List (RateSnapshot F)

-- Python's `max(1, n)`
abbrev pub at_least_1 : ℕ → ℕ
at_least_1 n = if ltb 1 n then n else 1

-- What is assumed of floats: the quotient of two counts is at least 1 where the first is at
-- least the second, and a number above one that is at least 1 is at least 1.
pub record IsRatio (F : Type 0) ⦃f : Float F⦄ : Type 0 where
  pub ratio : (a b : ℕ) → b ≤ a → 0 < b → f.ge (f.div (f.of_ℕ a) (f.of_ℕ b)) (f.of_ℕ 1) ≡ true
  pub above : (x y : F) → f.ge x (f.of_ℕ 1) ≡ true → f.gt y x ≡ true → f.ge y (f.of_ℕ 1) ≡ true

module _ {F : Type 0} ⦃f : Float F⦄ where
  abbrev largest : F → List F → F
  largest m [] = m
  largest m (x ∷ xs) = largest (fmax m x) xs

  -- `max(values, default=0.0)`
  abbrev max_of : List F → F
  max_of [] = f.of_ℕ 0
  max_of (x ∷ xs) = largest x xs

  abbrev given : Option F → List F
  given none = []
  given (some x) = x ∷ []

  abbrev percentages : List F → List (RateSnapshot F) → F
  percentages values [] = max_of values
  percentages values (snapshot ∷ rest) =
      let more = percentages (values ++ given snapshot.primary ++ given snapshot.secondary) rest in
      if snapshot.reached then f.of_ℕ 100 else more

  abbrev snapshots : RateLimits F → List (RateSnapshot F)
  snapshots l = elim l.rate_limits [ none ↦ l.by_limit_id | some s ↦ s ∷ l.by_limit_id ]

  unfoldable pub highest_rate_percent : Option (RateLimits F) → F
  highest_rate_percent none = f.of_ℕ 0
  highest_rate_percent (some l) = percentages [] (snapshots l)

  unfoldable pub token_fraction : TokenGovernor F → F
  token_fraction g = elim g.global_budget [
    | none ↦ f.of_ℕ 0
    | some zero ↦ f.of_ℕ 0
    | some budget ↦ f.div (f.of_ℕ g.total.total_tokens) (f.of_ℕ budget)
  ]

  unfoldable pub cost_fraction : TokenGovernor F → F
  cost_fraction g = elim g.global_cost_budget [
    | none ↦ f.of_ℕ 0
    | some budget ↦ if is_zero budget then f.of_ℕ 0 else f.div g.total_cost_usd budget
  ]

  unfoldable pub used_fraction : TokenGovernor F → F
  used_fraction g = fmax (token_fraction g) (cost_fraction g)

  unfoldable pub budget_kind : TokenGovernor F → BudgetKind
  budget_kind g = if f.ge (token_fraction g) (cost_fraction g) then token else cost

  unfoldable pub decide : TokenGovernor F → Option (RateLimits F) → GovernorDecision
  decide g limits =
      let used = used_fraction g in
      let rate = highest_rate_percent limits in
      if f.ge rate g.rate_stop_percent
      then record {
        action = stop;
        reason = rate_limit_reached;
        max_research = 0;
        allow_exploration = false;
        use_economy_routes = false;
      }
      else if f.ge used (f.of_ℕ 1)
      then record {
        action = drain_to_stop;
        reason = budget_reached (budget_kind g);
        max_research = 0;
        allow_exploration = false;
        use_economy_routes = false;
      }
      else if f.ge rate g.rate_drain_percent || f.ge used g.hard_fraction
      then record {
        action = drain;
        reason = near_limit;
        max_research = 1;
        allow_exploration = false;
        use_economy_routes = false;
      }
      else if f.ge rate g.rate_reduce_percent || f.ge used g.soft_fraction
      then record {
        action = degrade;
        reason = soft_threshold;
        max_research = at_least_1 (g.configured_max_research / 2);
        allow_exploration = false;
        use_economy_routes = false;
      }
      else record {
        action = run;
        reason = within_budget;
        max_research = g.configured_max_research;
        allow_exploration = true;
        use_economy_routes = false;
      }

  -- Whatever the limits say, a decision admits no more research jobs than are configured, or one
  -- where none is; it allows exploration exactly when it is RUN, and it admits no job exactly when
  -- it stops, drains to a stop, or is RUN where no job is configured.
  pub decide_bounds :
      (g : TokenGovernor F) (limits : Option (RateLimits F))
      → ((decide g limits).max_research ≤ at_least_1 g.configured_max_research)
        × (((decide g limits).allow_exploration ≡ true) ↔ ((decide g limits).action ≡ run))
        × (((decide g limits).max_research ≡ 0) ↔ (
            ((decide g limits).action ≡ stop)
            ⊎ ((decide g limits).action ≡ drain_to_stop)
            ⊎ (((decide g limits).action ≡ run) × (g.configured_max_research ≡ 0))))
  unfolding decide
  decide_bounds g limits = ground arith

  -- One limit that is reached makes the highest percentage 100, whatever the others report.
  highest_rate_reached :
      (before after : List (RateSnapshot F)) (s : RateSnapshot F) (values : List F)
      → s.reached ≡ true
      → percentages values (before ++ s ∷ after) ≡ f.of_ℕ 100
  highest_rate_reached [] after s values h = ground arith
  highest_rate_reached (b ∷ before) after s values h = ground (
    arith,
    highest_rate_reached before after s (values ++ given b.primary ++ given b.secondary) h,
  )

  -- Once the tokens spent reach a token budget that is not zero, no decision admits a job and none
  -- allows exploration, whatever was spent on costs and whatever the limits report; floats are
  -- assumed to divide and compare as IsRatio says.
  pub spent_budget_admits_none :
      (laws : IsRatio F) (g : TokenGovernor F) (limits : Option (RateLimits F)) (budget : ℕ)
      → g.global_budget ≡ some (suc budget)
      → suc budget ≤ g.total.total_tokens
      → ((decide g limits).max_research ≡ 0) × ((decide g limits).allow_exploration ≡ false)
  unfolding decide used_fraction token_fraction
  spent_budget_admits_none laws g limits budget e h = ground (
    arith,
    laws.ratio g.total.total_tokens (suc budget) h (omega arith),
    laws.above (f.div (f.of_ℕ g.total.total_tokens) (f.of_ℕ (suc budget))) (cost_fraction g),
  )

  -- A limit that is reached, wherever it stands among the limits by id, stops the run if 100 counts
  -- as at the stopping percentage.
  pub reached_limit_stops :
      (g : TokenGovernor F) (before after : List (RateSnapshot F)) (s : RateSnapshot F)
      → s.reached ≡ true
      → f.ge (f.of_ℕ 100) g.rate_stop_percent ≡ true
      → (decide g (some (record { rate_limits = none; by_limit_id = before ++ s ∷ after }))).action
        ≡ stop
  unfolding decide highest_rate_percent
  reached_limit_stops g before after s h stops =
      ground (arith, highest_rate_reached before after s [] h)
