-- ===== src/Watcher/Reload.antt =====
-- app/watcher/reload.py: `ReloadManager`. What builds, starts, checks and closes components, and
-- what validates a configuration, are arguments; a configuration is its `model_dump`.
use agentstrata.Config.Documents.{Resolution}
use agentstrata.Config.Merging.{overlay}
use agentstrata.Config.Tiers.{apply_tier}
use agentstrata.Json.{Fields, Json, obj}
use agentstrata.Prelude.{
  Bool, List, Option, String, String_discrete, [], if◌then◌else◌, none, some, ℕ, ◌+◌, ◌∷◌,
}
use agentstrata.Prelude.Dict.{Dict, contains, get, put}
use agentstrata.Storage.Model.{codes}
use agentstrata.Text.{Text}
use agentstrata.Watcher.Changes.{
  Category, changed_paths, classify_change, component_rebuild, live_snapshot, restart_required,
}

-- An entry of the `components` dictionary.
pub data Part (X : Type 0) : Type 0 where
  generation_part : ℕ → Part X
  hash_part : Text → Part X
  config_part : Fields → Part X
  object_part : X → Part X

pub record ReloadManager (X : Type 0) : Type 0 where
  pub generation : ℕ
  pub config : Fields
  pub components : Dict String (Part X)

pub data ReloadOutcome : Type 0 where
  applied_live applied_rebuild noop rejected rebuild_failed restart_needed : ReloadOutcome

pub record ReloadResult : Type 0 where
  pub outcome : ReloadOutcome
  pub generation : ℕ
  pub changed : List Text

-- What the manager calls: `==`, `validate_resolution` with the dump of a valid configuration,
-- `_config_hash`, `build_components` with none where it raises, whether the start of a new MCP
-- manager and `_health_check` succeed, `set_limit` of the run slots and
-- `set_requests_per_minute` of the rate limiter.
pub record Services (X : Type 0) : Type 0 where
  pub equal : Json → Json → Bool
  pub validate : Resolution → Option Fields
  pub config_hash : Fields → Text
  pub build_components : Fields → ℕ → Option (Dict String (Part X))
  pub starts_healthy : Dict String (Part X) → Bool
  pub set_limit : Fields → X → X
  pub set_requests_per_minute : Fields → X → X

module _ {X : Type 0} (services : Services X) where
  -- __init__
  unfoldable pub new_manager : Fields → Dict String (Part X) → ReloadManager X
  unfolding String_discrete
  new_manager config components = record {
    generation = 1;
    config = config;
    components =
        put String_discrete "config_hash" (hash_part (services.config_hash config))
          (put String_discrete "generation" (generation_part 1) components);
  }

  -- The entries of a new generation.
  unfoldable pub stamp : Fields → ℕ → Dict String (Part X) → Dict String (Part X)
  unfolding String_discrete
  stamp config generation components = put String_discrete "config" (config_part config) (
      put String_discrete "config_hash" (hash_part (services.config_hash config))
        (put String_discrete "generation" (generation_part generation) components))

  unfoldable pub adjusted :
      String → (X → X) → Option (Part X) → Dict String (Part X) → Dict String (Part X)
  unfolding String_discrete
  adjusted key f (some (object_part x)) components =
      put String_discrete key (object_part (f x)) components
  adjusted key f _ components = components

  -- A method call that changes the object under a key, if there is one.
  unfoldable pub adjust : String → (X → X) → Dict String (Part X) → Dict String (Part X)
  unfolding adjusted String_discrete
  adjust key f components = adjusted key f (get String_discrete key components) components

  -- for key, value in old_components.items(): if key not in replacements: …
  unfoldable pub carry_over : Dict String (Part X) → Dict String (Part X) → Dict String (Part X)
  unfolding String_discrete contains
  carry_over [] replacements = replacements
  carry_over ((key, value) ∷ old) replacements =
      if contains String_discrete key replacements
      then carry_over old replacements
      else carry_over old (put String_discrete key value replacements)

  -- The replacements that are built, started and healthy.
  unfoldable pub built : Fields → ℕ → Option (Dict String (Part X))
  built config generation = elim (services.build_components config generation) [
    | none ↦ none
    | some replacements ↦ if services.starts_healthy replacements then some replacements else none
  ]

  unfoldable pub unchanged_result : ReloadOutcome → List Text → ReloadManager X → ReloadResult
  unchanged_result outcome changed m = record {
    outcome = outcome;
    generation = m.generation;
    changed = changed;
  }

  unfoldable pub apply_live : Fields → List Text → ReloadManager X → ReloadResult × ReloadManager X
  unfolding stamp adjust
  apply_live config changed m =
      let generation = m.generation + 1 in
      (
        record { outcome = applied_live; generation = generation; changed = changed },
        record {
          generation = generation;
          config = config;
          components = adjust "rate_limiter" (services.set_requests_per_minute config) (
              adjust "run_slots" (services.set_limit config)
                (stamp config generation m.components));
        },
      )

  -- The swap of a rebuild, by whether the replacements are there.
  unfoldable pub swap :
      Fields
      → List Text
      → ReloadManager X
      → Option (Dict String (Part X))
      → ReloadResult × ReloadManager X
  unfolding stamp carry_over unchanged_result
  swap config changed m none = (unchanged_result rebuild_failed changed m, m)
  swap config changed m (some replacements) =
      let generation = m.generation + 1 in
      (
        record { outcome = applied_rebuild; generation = generation; changed = changed },
        record {
          generation = generation;
          config = config;
          components = carry_over m.components (stamp config generation replacements);
        },
      )

  unfoldable pub apply_rebuild :
      Fields → List Text → ReloadManager X → ReloadResult × ReloadManager X
  unfolding built swap
  apply_rebuild config changed m = swap config changed m (built config (m.generation + 1))

  -- The part of `apply_tier8` after the validation, by the category of the change.
  unfoldable pub apply_category :
      Category → Fields → List Text → ReloadManager X → ReloadResult × ReloadManager X
  unfolding apply_live apply_rebuild unchanged_result
  apply_category restart_required config changed m = (unchanged_result restart_needed changed m, m)
  apply_category live_snapshot config changed m = apply_live config changed m
  apply_category component_rebuild config changed m = apply_rebuild config changed m

  unfoldable pub apply_config : Fields → ReloadManager X → ReloadResult × ReloadManager X
  unfolding apply_category classify_change changed_paths unchanged_result
  apply_config config m =
      let changed = changed_paths services.equal m.config config in
      if services.equal (obj config) (obj m.config)
      then (unchanged_result noop [] m, m)
      else apply_category (classify_change changed) config changed m

  -- The rest of `apply_tier8`, by the result of the validation.
  unfoldable pub apply_validated : ReloadManager X → Option Fields → ReloadResult × ReloadManager X
  unfolding apply_config unchanged_result
  apply_validated m none = (unchanged_result rejected [] m, m)
  apply_validated m (some config) = apply_config config m

  -- apply_tier8; `base` is what tiers 1 to 7 resolve to
  unfoldable pub apply_tier8 :
      Resolution → Fields → ReloadManager X → ReloadResult × ReloadManager X
  unfolding apply_tier apply_validated codes
  apply_tier8 base overlay m =
      apply_validated m (services.validate (apply_tier 8 (codes "k8s-overlay") [] overlay base))

  -- The events of the watcher, the first one first.
  unfoldable pub reloads : List (Resolution × Fields) → ReloadManager X → ReloadManager X
  unfolding apply_tier8
  reloads [] m = m
  reloads ((base, overlay) ∷ events) m = reloads events (apply_tier8 base overlay m).1
