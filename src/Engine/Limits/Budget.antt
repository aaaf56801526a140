-- ===== src/Engine/Limits/Budget.antt =====
-- app/engine/limits.py: the token budget of a run.
use agentstrata.Engine.Limits.{
  RunLimiter, Usage, add, can_start_another_call, end_iteration, observe_usage, reserve_output,
  tokens, total,
}
use agentstrata.Prelude.{
  List, Option, [], arith, false, none, some, true, ℕ, ◌+◌, ◌<◌, ◌∷◌, ◌≡◌, ◌⊎◌,
}
use agentstrata.Text.{Text}

-- What the run does to its limiter.
pub data LimiterStep : Type 0 where
  observe : Option Usage → LimiterStep
  emit : Text → LimiterStep
  iterate : LimiterStep

unfoldable pub limiter_step : LimiterStep → RunLimiter → RunLimiter
unfolding observe_usage reserve_output end_iteration
limiter_step (observe usage) l = observe_usage usage l
limiter_step (emit text) l = (reserve_output text l).1
limiter_step iterate l = end_iteration l

unfoldable pub limiter_steps : List LimiterStep → RunLimiter → RunLimiter
unfolding limiter_step
limiter_steps [] l = l
limiter_steps (s ∷ steps) l = limiter_steps steps (limiter_step s l)

-- The tokens that one report adds to the account.
abbrev pub spent : Option Usage → ℕ
spent none = 0
spent (some []) = 0
spent (some (u ∷ us)) = tokens "input_tokens" (u ∷ us) + tokens "output_tokens" (u ∷ us)

total-observe :
    (usage : Option Usage) (l : RunLimiter)
    → total (observe_usage usage l).account ≡ total l.account + spent usage
unfolding observe_usage add
total-observe none l = ground arith
total-observe (some []) l = ground arith
total-observe (some (u ∷ us)) l = ground arith

stays_shut :
    (s : LimiterStep) (l : RunLimiter)
    → can_start_another_call l ≡ false
    → can_start_another_call (limiter_step s l) ≡ false
unfolding limiter_step can_start_another_call add
stays_shut (observe none) l h = ground arith
stays_shut (observe (some [])) l h = ground arith
stays_shut (observe (some (u ∷ us))) l h = ground arith
stays_shut (emit text) l h = ground arith
stays_shut iterate l h = ground arith

-- Once no further model call may start, none may start ever again, whatever usage is reported and
-- whatever text comes.
pub can_start-never_again :
    (steps : List LimiterStep) (l : RunLimiter)
    → can_start_another_call l ≡ false
    → can_start_another_call (limiter_steps steps l) ≡ false
unfolding limiter_steps
can_start-never_again [] l h = h
can_start-never_again (s ∷ steps) l h =
    can_start-never_again steps (limiter_step s l) (stays_shut s l h)

-- With a budget, and as long as an overshoot has been recorded exactly if the budget was
-- exceeded, a call that may start overshoots the budget by less than the usage that this call
-- reports. If the account then reaches the budget, no further call may start; the overshoot is
-- recorded exactly if the account passes it.
pub observe_usage-overshoot :
    (usage : Option Usage) (l : RunLimiter)
    → 0 < l.token_budget
    → can_start_another_call l ≡ true
    → l.budget_overshoot_recorded ≡ l.budget_exceeded
    → (total (observe_usage usage l).account < l.token_budget + spent usage)
      × (((total (observe_usage usage l).account < l.token_budget)
            × (can_start_another_call (observe_usage usage l) ≡ true)
            × ((observe_usage usage l).budget_overshoot_recorded ≡ false))
          ⊎ ((total (observe_usage usage l).account ≡ l.token_budget)
              × (can_start_another_call (observe_usage usage l) ≡ false)
              × ((observe_usage usage l).budget_overshoot_recorded ≡ false))
          ⊎ ((l.token_budget < total (observe_usage usage l).account)
              × (can_start_another_call (observe_usage usage l) ≡ false)
              × ((observe_usage usage l).budget_overshoot_recorded ≡ true)))
unfolding can_start_another_call observe_usage add
observe_usage-overshoot none l budget may same = ground arith
observe_usage-overshoot (some []) l budget may same = ground arith
observe_usage-overshoot (some (u ∷ us)) l budget may same = ground arith
