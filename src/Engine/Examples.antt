-- ===== src/Engine/Examples.antt =====
-- app/engine: tests on small inputs, and the theorems at concrete inputs.
use agentstrata.Engine.Context.{Message, context_length_exceeded, msg_bytes, prune_history, pruned}
use agentstrata.Engine.Context.Pruning.{FitsHistory, IsLongestSuffix, prune_history-cases}
use agentstrata.Engine.Limits.{
  RunLimiter, Usage, can_start_another_call, emit_texts, observe_usage, reserve_output, total,
}
use agentstrata.Engine.Limits.Budget.{
  can_start-never_again, emit, limiter_steps, observe, observe_usage-overshoot, spent,
}
use agentstrata.Engine.Limits.Output.{emit_texts-prefix, whole_text}
use agentstrata.Engine.RunState.{
  begin_cancel_m, created, endings, endings-once, fail_m, invoke_all, is_terminal, reconcile_m,
  reconciliations, start_m,
}
use agentstrata.Prelude.{
  List, [], arith, false, if◌then◌else◌, refl, some, true, ◌++◌, ◌+◌, ◌<◌, ◌∷◌, ◌≡◌, ◌≤◌, ◌⊎◌,
}
use agentstrata.Text.{Text, utf8_length}

abbrev limiter : RunLimiter
limiter = record {
  deadline_monotonic = 60;
  max_iterations = 4;
  max_output_bytes = 5;
  token_budget = 100;
  account = record { input_tokens = 0; output_tokens = 0; estimated = false };
  iterations = 0;
  output_bytes = 0;
  output_limit_hit = false;
  budget_exceeded = false;
  budget_overshoot_recorded = false;
}

abbrev exhausted : RunLimiter
exhausted = record limiter { output_limit_hit = true }

abbrev report : Usage
report = ("input_tokens", 90) ∷ ("output_tokens", 20) ∷ []

-- "hé€"
abbrev hello : Text
hello = 104 ∷ 233 ∷ 8364 ∷ []

abbrev say : Text → Message
say text = ("content", text) ∷ []

-- "read" and "drop"
abbrev read : Text
read = 114 ∷ 101 ∷ 97 ∷ 100 ∷ []

abbrev fs : Text
fs = 102 ∷ 115 ∷ []

test_reserve : (reserve_output hello limiter).0 ≡ 104 ∷ 233 ∷ []
unfolding reserve_output utf8_length
test_reserve = refl

emit_texts-prefix_example :
    ((rest : Text) × (whole_text (hello ∷ hello ∷ [])
        ≡ (emit_texts (hello ∷ hello ∷ []) limiter).0 ++ rest))
    × (limiter.output_bytes + utf8_length (emit_texts (hello ∷ hello ∷ []) limiter).0
        ≤ limiter.max_output_bytes)
    × (((emit_texts (hello ∷ hello ∷ []) limiter).1.output_limit_hit ≡ true)
        ⊎ (whole_text (hello ∷ hello ∷ []) ≡ (emit_texts (hello ∷ hello ∷ []) limiter).0))
emit_texts-prefix_example = emit_texts-prefix (hello ∷ hello ∷ []) limiter (omega arith) refl

can_start-never_again_example :
    can_start_another_call (limiter_steps (observe (some report) ∷ emit hello ∷ []) exhausted)
    ≡ false
unfolding can_start_another_call
can_start-never_again_example =
    can_start-never_again (observe (some report) ∷ emit hello ∷ []) exhausted refl

observe_usage-overshoot_example :
    (total (observe_usage (some report) limiter).account
      < limiter.token_budget + spent (some report))
    × (((total (observe_usage (some report) limiter).account < limiter.token_budget)
          × (can_start_another_call (observe_usage (some report) limiter) ≡ true)
          × ((observe_usage (some report) limiter).budget_overshoot_recorded ≡ false))
        ⊎ ((total (observe_usage (some report) limiter).account ≡ limiter.token_budget)
            × (can_start_another_call (observe_usage (some report) limiter) ≡ false)
            × ((observe_usage (some report) limiter).budget_overshoot_recorded ≡ false))
        ⊎ ((limiter.token_budget < total (observe_usage (some report) limiter).account)
            × (can_start_another_call (observe_usage (some report) limiter) ≡ false)
            × ((observe_usage (some report) limiter).budget_overshoot_recorded ≡ true)))
unfolding can_start_another_call
observe_usage-overshoot_example =
    observe_usage-overshoot (some report) limiter (omega arith) refl refl

endings-once_example :
    endings (start_m ∷ begin_cancel_m ∷ reconcile_m ∷ fail_m ∷ []) created
      + reconciliations (start_m ∷ begin_cancel_m ∷ reconcile_m ∷ fail_m ∷ []) created
    ≡ (if is_terminal (invoke_all (start_m ∷ begin_cancel_m ∷ reconcile_m ∷ fail_m ∷ []) created)
        then 1
        else 0)
unfolding is_terminal
endings-once_example =
    endings-once (start_m ∷ begin_cancel_m ∷ reconcile_m ∷ fail_m ∷ []) created refl

prune_history-cases_example :
    ((10 < msg_bytes (say fs))
      × (prune_history (say hello ∷ say read ∷ []) (say fs) 2 10 ≡ context_length_exceeded))
    ⊎ ((kept : List Message) × (msg_bytes (say fs) ≤ 10)
        × (prune_history (say hello ∷ say read ∷ []) (say fs) 2 10 ≡ pruned kept)
        × IsLongestSuffix (FitsHistory 2 10 (msg_bytes (say fs))) (say hello ∷ say read ∷ []) kept)
prune_history-cases_example =
    prune_history-cases (say hello ∷ say read ∷ []) (say fs) 2 10 (omega arith)
