-- ===== src/Watcher/Atomicity.antt =====
-- app/watcher/reload.py: a reload changes everything or nothing.
use agentstrata.Json.{Fields}
use agentstrata.Prelude.{Bool, String, String_discrete, false, none, some, true, ◌+◌, ◌≡◌, ◌≢◌, ◌⊎◌}
use agentstrata.Prelude.Dict.{Dict, get}
use agentstrata.Text.{Text}
use agentstrata.Watcher.Components.{with_object}
use agentstrata.Watcher.Reload.{
  Part, ReloadManager, ReloadOutcome, ReloadResult, Services, applied_live, applied_rebuild, built,
  stamp,
}

unfoldable pub is_applied : ReloadOutcome → Bool
is_applied applied_live = true
is_applied applied_rebuild = true
is_applied _ = false

module _ {X : Type 0} where
  -- The components that a live change leaves: the limits of the two objects are set, the entries
  -- of the generation are new, and every other entry is the one that was there.
  abbrev pub IsAdjusted : Services X → Fields → ReloadManager X → Dict String (Part X) → Type 0
  IsAdjusted s config m components =
      (get String_discrete "run_slots" components
        ≡ with_object (s.set_limit config) (get String_discrete "run_slots" m.components))
      × (get String_discrete "rate_limiter" components
          ≡ with_object (s.set_requests_per_minute config)
              (get String_discrete "rate_limiter" m.components))
      × ((key : String)
          → "run_slots" ≢ key
          → "rate_limiter" ≢ key
          → get String_discrete key components
            ≡ get String_discrete key (stamp s config (m.generation + 1) m.components))

  -- The components that a rebuild leaves: every replacement, with the entries of the generation,
  -- and the old entries whose keys are not among them.
  abbrev pub IsReplaced : Services X → Fields → ReloadManager X → Dict String (Part X) → Type 0
  IsReplaced s config m components =
      (replacements : Dict String (Part X)) × (built s config (m.generation + 1)
        ≡ some replacements)
      × ((key : String) (part : Part X)
          → get String_discrete key (stamp s config (m.generation + 1) replacements) ≡ some part
          → get String_discrete key components ≡ some part)
      × ((key : String)
          → get String_discrete key (stamp s config (m.generation + 1) replacements) ≡ none
          → get String_discrete key components ≡ get String_discrete key m.components)

  -- The result and the manager after a reload that did nothing, or did everything.
  abbrev pub IsAtomic :
      Services X → ReloadManager X → Fields → ReloadResult × ReloadManager X → Type 0
  IsAtomic s m config r =
      ((is_applied r.0.outcome ≡ false) × (r.1 ≡ m) × (r.0.generation ≡ m.generation))
      ⊎ ((is_applied r.0.outcome ≡ true)
          × (r.1.generation ≡ m.generation + 1)
          × (r.0.generation ≡ m.generation + 1)
          × (r.1.config ≡ config)
          × (((r.0.outcome ≡ applied_live) × IsAdjusted s config m r.1.components)
              ⊎ ((r.0.outcome ≡ applied_rebuild) × IsReplaced s config m r.1.components)))
