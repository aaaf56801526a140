-- ===== src/Watcher/Changes.antt =====
-- app/watcher/reload.py: the changed paths of two configurations, and their category.
use agentstrata.Config.Documents.{child_path}
use agentstrata.Json.{Fields, Json, arr, bool, end, field, float, int, null, obj, str}
use agentstrata.Prelude.{Bool, List, [], any, get_or, if◌then◌else◌, none, some, ◌++◌, ◌∷◌}
use agentstrata.Storage.Model.{codes}
use agentstrata.Storage.Parsing.{get_field}
use agentstrata.Text.{Text, starts_with, text_lt}

unfoldable pub restart_required_prefixes : List Text
unfolding codes
restart_required_prefixes =
    codes "schemaVersion"
    ∷ codes "name"
    ∷ codes "profile"
    ∷ codes "storage.type"
    ∷ codes "storage.path"
    ∷ codes "storage.connectionString"
    ∷ codes "server.host"
    ∷ codes "server.port"
    ∷ codes "server.protocols"
    ∷ codes "server.cors"
    ∷ codes "server.auth"
    ∷ codes "server.trustedProxyCidrs"
    ∷ codes "server.maxRequestLineBytes"
    ∷ codes "server.maxHeaderBytes"
    ∷ codes "server.maxHeaderCount"
    ∷ codes "observability.prometheus"
    ∷ codes "k8s."
    ∷ codes "observability.logFormat"
    ∷ codes "observability.otel"
    ∷ []

-- The set `rebuild` of `classify_change`.
unfoldable pub rebuild_prefixes : List Text
unfolding codes
rebuild_prefixes =
    codes "engine.systemInstruction"
    ∷ codes "engine.temperature"
    ∷ codes "engine.topP"
    ∷ codes "engine.maxTokens"
    ∷ codes "llm."
    ∷ codes "tools."
    ∷ codes "agents"
    ∷ codes "approval"
    ∷ codes "rag"
    ∷ codes "costs"
    ∷ []

pub data Category : Type 0 where
  restart_required component_rebuild live_snapshot : Category

-- any(p.startswith(t) for t in prefixes for p in changed_paths)
unfoldable pub touches : List Text → List Text → Bool
unfolding any starts_with
touches prefixes paths = any (λ p. any (λ t. starts_with p t) prefixes) paths

unfoldable pub classify_change : List Text → Category
unfolding touches restart_required_prefixes rebuild_prefixes
classify_change paths =
    if touches restart_required_prefixes paths
    then restart_required
    else if touches rebuild_prefixes paths
    then component_rebuild
    else live_snapshot

-- sorted(paths)
unfoldable pub insert_path : Text → List Text → List Text
unfolding text_lt
insert_path p [] = p ∷ []
insert_path p (q ∷ paths) = if text_lt q p then q ∷ insert_path p paths else p ∷ q ∷ paths

unfoldable pub sort_paths : List Text → List Text
unfolding insert_path
sort_paths [] = []
sort_paths (p ∷ paths) = insert_path p (sort_paths paths)

-- `==` of Python is an argument. The keys of two dictionaries are taken in another order than in
-- `walk`, as the paths are sorted at the end.
module _ (equal : Json → Json → Bool) where
  -- if o != n: paths.append(prefix)
  unfoldable pub differ : Json → Json → Text → List Text
  differ o n prefix = if equal o n then [] else prefix ∷ []

  -- The keys of the new dictionary that the old one lacks; `o.get(key)` is None there.
  unfoldable pub added : Fields → Fields → Text → List Text
  unfolding differ get_field child_path
  added old end prefix = []
  added old (field key n new) prefix =
      elim (get_field key old) [ none ↦ differ null n (child_path prefix key) | some o ↦ [] ]
      ++ added old new prefix

  unfoldable mutual
    unfolding differ added get_field child_path

    pub walk : Json → Json → Text → List Text
    walk (obj old) (obj new) prefix = walk_fields old new prefix ++ added old new prefix
    walk (obj old) n prefix = differ (obj old) n prefix
    walk null n prefix = differ null n prefix
    walk (bool b) n prefix = differ (bool b) n prefix
    walk (int i) n prefix = differ (int i) n prefix
    walk (float f) n prefix = differ (float f) n prefix
    walk (str s) n prefix = differ (str s) n prefix
    walk (arr items) n prefix = differ (arr items) n prefix

    -- The keys of the old dictionary.
    pub walk_fields : Fields → Fields → Text → List Text
    walk_fields end new prefix = []
    walk_fields (field key o old) new prefix =
        walk o (get_or (get_field key new) null) (child_path prefix key)
        ++ walk_fields old new prefix

  unfoldable pub changed_paths : Fields → Fields → List Text
  unfolding walk sort_paths
  changed_paths old new = sort_paths (walk (obj old) (obj new) [])
