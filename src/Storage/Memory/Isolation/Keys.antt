-- ===== src/Storage/Memory/Isolation/Keys.antt =====
-- app/storage/memory.py: two keys of different sessions.
use agentstrata.Prelude.{String, ap, arith, false, ◌≡◌, ◌≢◌}
use agentstrata.Storage.Memory.State.{in_session}
use agentstrata.Storage.Model.{RunKey, SessionKey}

-- A run key of another session is another run key.
pub run_key_ne : (k key : SessionKey) (i j : String) → k ≢ key → ◌≢◌ {A = RunKey} (k, i) (key, j)
run_key_ne k key i j h = λ e. h (ap (λ (r : RunKey). r.0) e)

pub in_session-ne : (k key : SessionKey) (i : String) → k ≢ key → in_session k (key, i) ≡ false
unfolding in_session
in_session-ne k key i h = ground arith
