-- ===== src/Engine/Limits.antt =====
-- app/engine/limits.py: the limits and the token account of one run. Clock values are numbers of
-- microseconds. A provider's usage is a dict of natural numbers; `_as_int` of a missing entry is 0.
pub mod Output
pub mod Budget
use agentstrata.Prelude.{
  Bool, List, Option, String, String_discrete, [], false, get_or, if◌then◌else◌, leb, ltb, none,
  not, some, true, ℕ, ◌&&◌, ◌++◌, ◌+◌, ◌-◌, ◌||◌, ◌∷◌,
}
use agentstrata.Prelude.Dict.{Dict, get}
use agentstrata.Text.{Text, utf8_length, utf8_size}

pub record TokenAccount : Type 0 where
  pub input_tokens : ℕ
  pub output_tokens : ℕ
  pub estimated : Bool

abbrev pub Usage : Type 0
Usage = Dict String ℕ

-- _as_int(usage.get(name))
unfoldable pub tokens : String → Usage → ℕ
unfolding String_discrete
tokens name usage = get_or (get String_discrete name usage) 0

unfoldable pub add : Option Usage → TokenAccount → TokenAccount
unfolding tokens
add none a = record a { estimated = true }
add (some []) a = record a { estimated = true }
add (some (u ∷ us)) a = record a {
  input_tokens = a.input_tokens + tokens "input_tokens" (u ∷ us);
  output_tokens = a.output_tokens + tokens "output_tokens" (u ∷ us);
}

abbrev pub total : TokenAccount → ℕ
total a = a.input_tokens + a.output_tokens

pub record RunLimiter : Type 0 where
  pub deadline_monotonic : ℕ
  pub max_iterations : ℕ
  pub max_output_bytes : ℕ
  pub token_budget : ℕ
  pub account : TokenAccount
  pub iterations : ℕ
  pub output_bytes : ℕ
  pub output_limit_hit : Bool
  pub budget_exceeded : Bool
  pub budget_overshoot_recorded : Bool

-- `check_deadline` and `begin_iteration`: whether they raise `agent_timeout`
unfoldable pub past_deadline : RunLimiter → ℕ → Bool
past_deadline l now = leb l.deadline_monotonic now

unfoldable pub end_iteration : RunLimiter → RunLimiter
end_iteration l = record l { iterations = l.iterations + 1 }

unfoldable pub iteration_limit_hit : RunLimiter → Bool
iteration_limit_hit l = leb l.max_iterations l.iterations

-- _codepoint_prefix
unfoldable pub codepoint_prefix : Text → ℕ → Text
codepoint_prefix [] budget = []
codepoint_prefix (c ∷ cs) budget =
    let rest = codepoint_prefix cs (budget - utf8_size c) in
    if ltb budget (utf8_size c) then [] else c ∷ rest

unfoldable pub reserve_output : Text → RunLimiter → Text × RunLimiter
unfolding codepoint_prefix
reserve_output delta l =
    let room = l.max_output_bytes - l.output_bytes in
    let truncated = codepoint_prefix delta room in
    if leb l.max_output_bytes l.output_bytes
    then ([], record l { output_limit_hit = true })
    else if leb (utf8_length delta) room
    then (delta, record l { output_bytes = l.output_bytes + utf8_length delta })
    else (
      truncated,
      record l { output_bytes = l.output_bytes + utf8_length truncated; output_limit_hit = true },
    )

unfoldable pub observe_usage : Option Usage → RunLimiter → RunLimiter
unfolding add
observe_usage usage l =
    let a = add usage l.account in
    if ltb 0 l.token_budget && ltb l.token_budget (total a)
    then record l { account = a; budget_exceeded = true; budget_overshoot_recorded = true }
    else record l { account = a }

unfoldable pub can_start_another_call : RunLimiter → Bool
can_start_another_call l =
    if l.budget_exceeded || l.output_limit_hit
    then false
    else not (ltb 0 l.token_budget && leb l.token_budget (total l.account))

-- The text parts of the model's events, as app/engine/runner.py passes them through the limiter:
-- a part that is let through is appended, and the run stops at the first part that hits the limit.
unfoldable pub emit_texts : List Text → RunLimiter → Text × RunLimiter
unfolding reserve_output
emit_texts [] l = ([], l)
emit_texts (part ∷ parts) l =
    let (allowed, l') = reserve_output part l in
    let rest = emit_texts parts l' in
    if l'.output_limit_hit then (allowed, l') else (allowed ++ rest.0, rest.1)
