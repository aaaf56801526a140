-- ===== src/Engine/RunState.antt =====
-- app/engine/events.py: the state machine of a run.
use agentstrata.Prelude.{
  All, Bool, List, [], arith, false, if◌then◌else◌, inl, inr, not, refl, true, ℕ, ◌&&◌, ◌+◌, ◌||◌,
  ◌∷◌, ◌≡◌, ◌⊎◌,
}

pub data RunState : Type 0 where
  created running cancelling awaiting_approval succeeded failed cancelled : RunState

unfoldable pub is_terminal : RunState → Bool
is_terminal succeeded = true
is_terminal failed = true
is_terminal cancelled = true
is_terminal _ = false

-- Each method returns the new state, and whether it made the transition.
unfoldable pub start : RunState → RunState × Bool
start created = (running, true)
start s = (s, false)

unfoldable pub pause_for_approval : RunState → RunState × Bool
pause_for_approval running = (awaiting_approval, true)
pause_for_approval s = (s, false)

unfoldable pub begin_cancel : RunState → RunState × Bool
begin_cancel running = (cancelling, true)
begin_cancel created = (cancelling, true)
begin_cancel s = (s, false)

-- self._state in (RUNNING, CREATED, CANCELLING), which `_to_terminal` asks of every target
unfoldable pub may_end : RunState → Bool
may_end running = true
may_end created = true
may_end cancelling = true
may_end _ = false

unfoldable pub to_terminal : RunState → RunState → RunState × Bool
unfolding is_terminal may_end
to_terminal target s =
    if not (is_terminal target) || is_terminal s
    then (s, false)
    else if may_end s
    then (target, true)
    else (s, false)

unfoldable pub succeed : RunState → RunState × Bool
unfolding to_terminal
succeed s = to_terminal succeeded s

unfoldable pub fail : RunState → RunState × Bool
unfolding to_terminal
fail s = to_terminal failed s

unfoldable pub cancel : RunState → RunState × Bool
unfolding to_terminal
cancel s = to_terminal cancelled s

unfoldable pub reconcile_after_restart : RunState → RunState
unfolding is_terminal
reconcile_after_restart s = if is_terminal s then s else failed

-- The methods that change the state, as data. `reconcile_after_restart` returns the state, and
-- reports no transition.
pub data Method : Type 0 where
  start_m pause_m begin_cancel_m succeed_m fail_m cancel_m reconcile_m : Method

unfoldable pub invoke : Method → RunState → RunState × Bool
unfolding start pause_for_approval begin_cancel succeed fail cancel reconcile_after_restart
invoke start_m s = start s
invoke pause_m s = pause_for_approval s
invoke begin_cancel_m s = begin_cancel s
invoke succeed_m s = succeed s
invoke fail_m s = fail s
invoke cancel_m s = cancel s
invoke reconcile_m s = (reconcile_after_restart s, false)

-- Whether the method is one of the three that end a run and report it.
abbrev pub ends : Method → Bool
ends succeed_m = true
ends fail_m = true
ends cancel_m = true
ends _ = false

unfoldable pub invoke_all : List Method → RunState → RunState
unfolding invoke
invoke_all [] s = s
invoke_all (m ∷ ms) s = invoke_all ms (invoke m s).0

-- How many of the calls report that they ended the run.
unfoldable pub endings : List Method → RunState → ℕ
unfolding invoke
endings [] s = 0
endings (m ∷ ms) s = (if ends m && (invoke m s).1 then 1 else 0) + endings ms (invoke m s).0

-- Whether the call is a reconciliation of a run that has not ended.
unfoldable pub reconciles : Method → RunState → Bool
unfolding is_terminal
reconciles reconcile_m s = not (is_terminal s)
reconciles m s = false

-- How many of the calls are such reconciliations.
unfoldable pub reconciliations : List Method → RunState → ℕ
unfolding invoke reconciles
reconciliations [] s = 0
reconciliations (m ∷ ms) s = (if reconciles m s then 1 else 0) + reconciliations ms (invoke m s).0

-- A terminal state is never left, and no call on it reports a transition.
pub invoke-terminal : (m : Method) (s : RunState) → is_terminal s ≡ true → invoke m s ≡ (s, false)
unfolding invoke
invoke-terminal m s h = ground arith

reconciles-terminal : (m : Method) (s : RunState) → is_terminal s ≡ true → reconciles m s ≡ false
unfolding reconciles
reconciles-terminal m s h = ground arith

endings-terminal :
    (ms : List Method) (s : RunState)
    → is_terminal s ≡ true
    → (endings ms s ≡ 0) × (reconciliations ms s ≡ 0) × (invoke_all ms s ≡ s)
unfolding endings invoke_all reconciliations
endings-terminal [] s h = (refl, refl, refl)
endings-terminal (m ∷ ms) s h =
    ground (arith, invoke-terminal m s h, reconciles-terminal m s h, endings-terminal ms s h)

-- How a call ends a run that has not ended: it reports that, or it reconciles the run.
unfoldable ended_by : Method → RunState → ℕ
unfolding invoke reconciles
ended_by m s = (if ends m && (invoke m s).1 then 1 else 0) + (if reconciles m s then 1 else 0)

-- A call on a run that has not ended ends it in one of the two ways, or does not end it.
invoke-cases :
    (m : Method) (s : RunState)
    → is_terminal s ≡ false
    → ((ended_by m s ≡ 1) × (is_terminal (invoke m s).0 ≡ true))
      ⊎ ((ended_by m s ≡ 0) × (is_terminal (invoke m s).0 ≡ false))
unfolding invoke reconciles ended_by
invoke-cases m s h = ground arith

-- Whatever methods are called on a run that has not ended, `reconcile_after_restart` included, in
-- whatever order: if the run ends, exactly one call ends it, which either reports so or is a
-- reconciliation of a run that has not ended; otherwise there is no such call.
pub endings-once :
    (ms : List Method) (s : RunState)
    → is_terminal s ≡ false
    → endings ms s + reconciliations ms s ≡ (if is_terminal (invoke_all ms s) then 1 else 0)
unfolding endings invoke_all reconciliations ended_by
endings-once [] s h = ground arith
endings-once (m ∷ ms) s h = elim (invoke-cases m s h) [
  | inl (one, over) ↦ ground (arith, endings-terminal ms (invoke m s).0 over)
  | inr (none_yet, open_) ↦ ground (arith, endings-once ms (invoke m s).0 open_)
]

-- Whether the method is not the reconciliation.
abbrev is_live : Method → Bool
is_live reconcile_m = false
is_live m = true

-- A run that waits for an approval is left by no method but the reconciliation, and by that it
-- becomes failed.
pub awaiting-only_restart :
    (ms : List Method)
    → All (λ m. is_live m ≡ true) ms
    → (invoke_all ms awaiting_approval ≡ awaiting_approval)
      × (endings ms awaiting_approval ≡ 0)
      × ((invoke reconcile_m (invoke_all ms awaiting_approval)).0 ≡ failed)
unfolding invoke_all endings invoke
awaiting-only_restart [] live = (refl, refl, refl)
awaiting-only_restart (m ∷ ms) live =
    let left = awaiting-only_restart ms live.1 in
    let stays : invoke m awaiting_approval ≡ (awaiting_approval, false) = ground arith in
    ground (arith, left)
