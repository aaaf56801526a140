-- ===== src/Watcher/Transactions.antt =====
-- app/watcher/reload.py: the components agree with the manager, and what survives a rebuild.
use agentstrata.Config.Documents.{Resolution}
use agentstrata.Config.Merging.{overlay}
use agentstrata.Json.{Fields, obj}
use agentstrata.Prelude.{
  Bool-cases, List, Option, String, String_discrete, [], ap, inl, inr, none, refl, some, ◌+◌, ◌∙◌,
  ◌∷◌, ◌≡◌,
}
use agentstrata.Prelude.Dict.{Dict, get, get-put_ne, get-put_self}
use agentstrata.Text.{Text}
use agentstrata.Watcher.Changes.{
  Category, changed_paths, classify_change, component_rebuild, live_snapshot, restart_required,
}
use agentstrata.Watcher.Components.{
  IsConsistent, adjust-get_ne, apart, carry_over-kept, carry_over-old, stamp-get,
}
use agentstrata.Watcher.Reload.{
  Part, ReloadManager, Services, adjust, apply_category, apply_config, apply_live, apply_rebuild,
  apply_tier8, apply_validated, built, generation_part, hash_part, new_manager, reloads, stamp,
  swap,
}

module _ {X : Type 0} where
  live-IsConsistent :
      (s : Services X) (config : Fields) (changed : List Text) (m : ReloadManager X)
      → IsConsistent s (apply_live s config changed m).1
  unfolding apply_live
  live-IsConsistent s config changed m =
      let stamped = stamp s config (m.generation + 1) m.components in
      let adjusted_slots = adjust s "run_slots" (s.set_limit config) stamped in
      let at = stamp-get s config (m.generation + 1) m.components in
      (
        adjust-get_ne s "rate_limiter" "generation" (s.set_requests_per_minute config)
              adjusted_slots (apart "rate_limiter" "generation" refl)
            ∙ adjust-get_ne s "run_slots" "generation" (s.set_limit config) stamped
                (apart "run_slots" "generation" refl)
            ∙ at.0,
        adjust-get_ne s "rate_limiter" "config_hash" (s.set_requests_per_minute config)
              adjusted_slots (apart "rate_limiter" "config_hash" refl)
            ∙ adjust-get_ne s "run_slots" "config_hash" (s.set_limit config) stamped
                (apart "run_slots" "config_hash" refl)
            ∙ at.1,
      )

  swap-IsConsistent :
      (s : Services X) (config : Fields) (changed : List Text) (m : ReloadManager X)
      (o : Option (Dict String (Part X)))
      → IsConsistent s m
      → IsConsistent s (swap s config changed m o).1
  unfolding swap
  swap-IsConsistent s config changed m none h = h
  swap-IsConsistent s config changed m (some r) h =
      let stamped = stamp s config (m.generation + 1) r in
      let at = stamp-get s config (m.generation + 1) r in
      (
        carry_over-kept s m.components stamped "generation" _ at.0,
        carry_over-kept s m.components stamped "config_hash" _ at.1,
      )

  category-IsConsistent :
      (s : Services X) (c : Category) (config : Fields) (changed : List Text) (m : ReloadManager X)
      → IsConsistent s m
      → IsConsistent s (apply_category s c config changed m).1
  unfolding apply_category apply_rebuild
  category-IsConsistent s restart_required config changed m h = h
  category-IsConsistent s live_snapshot config changed m h = live-IsConsistent s config changed m
  category-IsConsistent s component_rebuild config changed m h =
      swap-IsConsistent s config changed m (built s config (m.generation + 1)) h

  validated-IsConsistent :
      (s : Services X) (m : ReloadManager X) (o : Option Fields)
      → IsConsistent s m
      → IsConsistent s (apply_validated s m o).1
  unfolding apply_validated apply_config
  validated-IsConsistent s m none h = h
  validated-IsConsistent s m (some config) h =
      elim (Bool-cases (s.equal (obj config) (obj m.config))) [
        | inl e ↦ rw e h
        | inr e ↦ rw e (
            category-IsConsistent s (classify_change (changed_paths s.equal m.config config)) config
              (changed_paths s.equal m.config config) m h)
      ]

  steps-IsConsistent :
      (s : Services X) (events : List (Resolution × Fields)) (m : ReloadManager X)
      → IsConsistent s m
      → IsConsistent s (reloads s events m)
  unfolding reloads apply_tier8
  steps-IsConsistent s [] m h = h
  steps-IsConsistent s ((base, overlay) ∷ events) m h =
      steps-IsConsistent s events (apply_tier8 s base overlay m).1 (validated-IsConsistent s m _ h)

  -- After any sequence of reloads of a new manager, the components carry the number of the
  -- manager's generation and the hash of the manager's configuration.
  pub reloads-IsConsistent :
      (s : Services X) (config : Fields) (components : Dict String (Part X))
      (events : List (Resolution × Fields))
      → IsConsistent s (reloads s events (new_manager s config components))
  unfolding new_manager
  reloads-IsConsistent s config components events =
      steps-IsConsistent s events (new_manager s config components) (
        get-put_ne String_discrete "config_hash" "generation" (hash_part (s.config_hash config)) _
              (apart "config_hash" "generation" refl)
            ∙ get-put_self String_discrete "generation" (generation_part 1) components,
        get-put_self String_discrete "config_hash" (hash_part (s.config_hash config)) _,
      )

  -- What a rebuild does not produce survives it: if the replacements are built and healthy and
  -- lack a key that the manager does not set itself, the manager's entry of that key stays.
  pub apply_rebuild-survives :
      (s : Services X) (config : Fields) (changed : List Text) (m : ReloadManager X)
      (replacements : Dict String (Part X)) (key : String)
      → built s config (m.generation + 1) ≡ some replacements
      → get String_discrete key (stamp s config (m.generation + 1) replacements) ≡ none
      → get String_discrete key (apply_rebuild s config changed m).1.components
        ≡ get String_discrete key m.components
  unfolding apply_rebuild swap
  apply_rebuild-survives s config changed m replacements key e h =
      ap (λ o. get String_discrete key (swap s config changed m o).1.components) e
      ∙ carry_over-old s m.components (stamp s config (m.generation + 1) replacements) key h
