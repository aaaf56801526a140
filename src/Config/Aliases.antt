-- ===== src/Config/Aliases.antt =====
-- app/config/resolver.py: a canonical variable wins over an alias, in any order.
use agentstrata.Config.Cli.{dotted}
use agentstrata.Config.Environment.{
  EnvState, IndexEntry, bind_candidates, bind_env, bind_variables, build_binding_index,
  candidates_of, canonically_bound, env_aliases, is_agent_variable, is_canonical, strip_key,
}
use agentstrata.Config.Scalars.{Checked, SchemaField, TextOps, bad, good, ◌>>=◌}
use agentstrata.Json.{end}
use agentstrata.Prelude.{
  Bool, Bool-cases, List, String, [], ap, drop, false, if◌then◌else◌, inl, inr, keep_if, map, refl,
  true, ◌++◌, ◌∙◌, ◌∷◌, ◌≡◌, ◌⊎◌,
}
use agentstrata.Storage.Model.{codes}
use agentstrata.Text.{Text, elem}

continue_same :
    {A B : Type 0} (x : Checked A) (k l : A → Checked B)
    → ((a : A) → k a ≡ l a)
    → (x >>= k) ≡ (x >>= l)
continue_same (good a) k l h = h a
continue_same (bad e) k l h = refl

module _ (ops : TextOps) where
  keep_if-single :
      (p : SchemaField → Bool) (f : SchemaField) → p f ≡ false → keep_if p (f ∷ []) ≡ []
  unfolding keep_if
  keep_if-single p f h = rw h refl

  -- A short name of the table, after the prefix, with the field that the table gives it.
  abbrev pub IsListed : List (Text × List String) → Text → SchemaField → Type 0
  IsListed [] var f = ⊥
  IsListed ((short, target) ∷ aliases) var f =
      ((var ≡ codes "AGENT_" ++ short) × (dotted target ≡ dotted f.segments))
      ⊎ IsListed aliases var f

  -- A short alias of the closed table that matches no other field, and that is not itself the
  -- canonical name of its field.
  abbrev pub IsAlias : List IndexEntry → Text → SchemaField → Type 0
  IsAlias index var f =
      IsListed env_aliases var f
      × (candidates_of ops index (strip_key ops (drop 6 var)) ≡ f ∷ [])
      × (is_canonical ops var f ≡ false)

  canonically_bound-alias :
      (index : List IndexEntry) (env rest : List (Text × Text)) (var raw : Text) (f : SchemaField)
      → IsAlias index var f
      → canonically_bound ops index (env ++ (var, raw) ∷ rest)
        ≡ canonically_bound ops index (env ++ rest)
  unfolding canonically_bound
  canonically_bound-alias index [] rest var raw f h =
      elim (Bool-cases (is_agent_variable ops var)) [
        | inl e ↦ rw (e, h.1, keep_if-single (is_canonical ops var) f h.2) refl
        | inr e ↦ rw e refl
      ]
  canonically_bound-alias index ((v, w) ∷ env) rest var raw f h =
      ap
        (λ others.
          if is_agent_variable ops v
          then map (λ (g : SchemaField). dotted g.segments)
              (keep_if (is_canonical ops v) (candidates_of ops index (strip_key ops (drop 6 v))))
            ++ others
          else others)
        (canonically_bound-alias index env rest var raw f h)

  bind_variables-alias :
      (index : List IndexEntry) (canonical : List Text) (env rest : List (Text × Text))
      (var raw : Text) (f : SchemaField) (state : EnvState)
      → IsAlias index var f
      → elem (dotted f.segments) canonical ≡ true
      → bind_variables ops index canonical (env ++ (var, raw) ∷ rest) state
        ≡ bind_variables ops index canonical (env ++ rest) state
  unfolding bind_variables bind_candidates
  bind_variables-alias index canonical [] rest var raw f state h e =
      elim (Bool-cases (is_agent_variable ops var)) [
        | inl q ↦ rw (q, h.1, e, h.2) refl
        | inr q ↦ rw q refl
      ]
  bind_variables-alias index canonical ((v, w) ∷ env) rest var raw f state h e =
      continue_same
        (if is_agent_variable ops v
          then bind_candidates ops canonical v w
              (candidates_of ops index (strip_key ops (drop 6 v))) state
          else good state)
        (bind_variables ops index canonical (env ++ (var, raw) ∷ rest))
        (bind_variables ops index canonical (env ++ rest))
        (λ next. bind_variables-alias index canonical env rest var raw f next h e)

  -- A canonical name wins over a short alias of the closed table, wherever the two stand in the
  -- environment: if the variable is such an alias of a field and matches no other field, and a
  -- variable with the field's canonical name is there, then the result of the binding, its
  -- warnings and failures included, is the one without the alias.
  pub bind_env-alias :
      (schema : List SchemaField) (env rest : List (Text × Text)) (var raw : Text) (f : SchemaField)
      → IsAlias (build_binding_index ops schema) var f
      → elem
          (dotted f.segments)
          (canonically_bound ops (build_binding_index ops schema) (env ++ rest))
        ≡ true
      → bind_env ops schema (env ++ (var, raw) ∷ rest) ≡ bind_env ops schema (env ++ rest)
  unfolding bind_env
  bind_env-alias schema env rest var raw f h e =
      let index = build_binding_index ops schema in
      ap (λ canonical. bind_variables ops index canonical (env ++ (var, raw) ∷ rest) (end, [], []))
        (canonically_bound-alias index env rest var raw f h)
      ∙ bind_variables-alias index (canonically_bound ops index (env ++ rest)) env rest var raw f
          (end, [], []) h e
