-- ===== src/Watcher/Examples.antt =====
-- app/watcher/reload.py: concrete reloads. A component is a number; two values are equal if they
-- are the same text or both nothing.
use agentstrata.Config.Documents.{Resolution}
use agentstrata.Json.{Fields, Json, end, field, null, str}
use agentstrata.Prelude.{
  Bool, String, String_discrete, [], false, none, refl, some, str_eq, true, ℕ, ◌+◌, ◌∷◌, ◌≡◌,
}
use agentstrata.Prelude.Dict.{Dict, get, put}
use agentstrata.Watcher.Components.{IsConsistent}
use agentstrata.Watcher.Reload.{
  Part, ReloadManager, Services, apply_rebuild, built, new_manager, object_part, reloads, stamp,
}
use agentstrata.Watcher.Transactions.{apply_rebuild-survives, reloads-IsConsistent}

abbrev equal : Json → Json → Bool
equal null null = true
equal (str a) (str b) = str_eq a b
equal _ _ = false

abbrev services : Services ℕ
services = record {
  equal = equal;
  validate = λ r. some r.merged;
  config_hash = λ config. [];
  build_components = λ config n. some (("mcp", object_part n) ∷ []);
  starts_healthy = λ components. true;
  set_limit = λ config x. x + 1;
  set_requests_per_minute = λ config x. x;
}

abbrev components : Dict String (Part ℕ)
components = ("run_slots", object_part 4) ∷ ("mcp", object_part 0) ∷ []

abbrev config : Fields
config = field "name" (str "a") (field "description" (str "b") end)

abbrev other_config : Fields
other_config = field "name" (str "a") (field "description" (str "c") end)

abbrev manager : ReloadManager ℕ
manager = record { generation = 1; config = config; components = components }

abbrev base : Resolution
base = record { merged = config; provenance = [] }

reloads-IsConsistent_example : IsConsistent services (
    reloads services
      ((base, other_config) ∷ (base, end) ∷ [])
      (new_manager services config components))
reloads-IsConsistent_example =
    reloads-IsConsistent services config components ((base, other_config) ∷ (base, end) ∷ [])

built_one : built services other_config 2 ≡ some (("mcp", object_part 2) ∷ [])
unfolding built
built_one = refl

no_slots :
    get String_discrete "run_slots" (stamp services other_config 2 (("mcp", object_part 2) ∷ []))
    ≡ none
unfolding stamp get put String_discrete
no_slots = refl

apply_rebuild-survives_example :
    get String_discrete "run_slots" (apply_rebuild services other_config [] manager).1.components
    ≡ get String_discrete "run_slots" components
apply_rebuild-survives_example =
    apply_rebuild-survives services other_config [] manager (("mcp", object_part 2) ∷ [])
      "run_slots" built_one no_slots
