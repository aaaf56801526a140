-- ===== src/Engine/Context.antt =====
-- app/engine/context.py: which of the persisted messages go before the pending one.
pub mod Pruning
use agentstrata.Prelude.{
  List, String, String_discrete, [], get_or, if◌then◌else◌, leb, length, ltb, max, ℕ, ◌+◌, ◌-◌,
  ◌==◌, ◌||◌, ◌∷◌,
}
use agentstrata.Prelude.Dict.{Dict, get}
use agentstrata.Text.{Text, utf8_length}

pub data Pruned {ℓ} (A : Type ℓ) : Type ℓ where
  pruned : A → Pruned A
  context_length_exceeded : Pruned A

abbrev pub Message : Type 0
Message = Dict String Text

unfoldable pub msg_bytes : Message → ℕ
unfolding String_discrete
msg_bytes message = utf8_length (get_or (get String_discrete "content" message) [])

-- sum(size(m) for m in messages)
unfoldable pub sum_sizes {ℓ} : {M : Type ℓ} → (M → ℕ) → List M → ℕ
sum_sizes size [] = 0
sum_sizes size (m ∷ ms) = size m + sum_sizes size ms

-- The loop of `prune_history`.
unfoldable pub drop_oldest : ℕ → ℕ → ℕ → List Message → List Message
drop_oldest max_messages max_bytes total [] = []
drop_oldest max_messages max_bytes total (m ∷ kept) =
    let rest = drop_oldest max_messages max_bytes (total - msg_bytes m) kept in
    if ltb max_messages (length (m ∷ kept) + 1) || ltb max_bytes total then rest else m ∷ kept

unfoldable pub prune_history : List Message → Message → ℕ → ℕ → Pruned (List Message)
unfolding msg_bytes sum_sizes drop_oldest
prune_history persisted pending_user history_max_messages history_max_bytes =
    let pending_bytes = msg_bytes pending_user in
    let total_bytes = sum_sizes msg_bytes persisted + pending_bytes in
    if ltb history_max_bytes pending_bytes
    then context_length_exceeded
    else pruned (drop_oldest history_max_messages history_max_bytes total_bytes persisted)

-- The loop of `trim_to_context_window`; `estimate_tokens` is the caller's.
unfoldable pub drop_oldest_tokens {ℓ} : {M : Type ℓ} → (M → ℕ) → ℕ → ℕ → List M → List M
drop_oldest_tokens estimate budget total [] = []
drop_oldest_tokens estimate budget total (m ∷ kept) =
    let rest = drop_oldest_tokens estimate budget (total - estimate m) kept in
    if ltb budget total then rest else m ∷ kept

unfoldable pub trim_to_context_window {ℓ} :
    {M : Type ℓ} → List M → M → ℕ → ℕ → (M → ℕ) → Pruned (List M)
unfolding sum_sizes drop_oldest_tokens
trim_to_context_window history pending_user context_window_tokens reserved_output_tokens estimate =
    let reserved = max reserved_output_tokens 1 in
    let budget = context_window_tokens - reserved in
    let pending_est = estimate pending_user in
    let total = sum_sizes estimate history + pending_est in
    if context_window_tokens == 0
    then pruned history
    else if leb context_window_tokens reserved
    then context_length_exceeded
    else if ltb budget pending_est
    then context_length_exceeded
    else pruned (drop_oldest_tokens estimate budget total history)
