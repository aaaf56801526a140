-- ===== src/Config/Tiers.antt =====
-- app/config/resolver.py: `_apply_tier`, and the tiers in their order.
use agentstrata.Config.Documents.{
  Provenances, Resolution, child_path, dict_or_empty, pop_field, set_field,
}
use agentstrata.Json.{Fields, Json, arr, bool, end, field, float, int, null, obj, str}
use agentstrata.Prelude.{Bool, List, String, [], false, true, ℕ, ◌∷◌}
use agentstrata.Prelude.Dict.{put}
use agentstrata.Storage.Parsing.{get_field}
use agentstrata.Text.{Text, text_discrete}

-- prov[p] = Provenance(…)
unfoldable pub record_leaf : Text → ℕ → Bool → Text → Provenances → Provenances
unfolding text_discrete
record_leaf p tier reset source prov =
    put text_discrete p (record { tier = tier; reset = reset; source = source }) prov

-- The last branch: the value replaces what is there.
unfoldable pub set_leaf : ℕ → Text → Text → String → Json → Resolution → Resolution
unfolding child_path record_leaf set_field
set_leaf tier source path key value r = record {
  merged = set_field key value r.merged;
  provenance = record_leaf (child_path path key) tier false source r.provenance;
}

unfoldable mutual
  unfolding child_path record_leaf set_field pop_field dict_or_empty get_field set_leaf

  -- _apply_tier
  pub apply_tier : ℕ → Text → Text → Fields → Resolution → Resolution
  apply_tier tier source path end r = r
  apply_tier tier source path (field key value doc) r =
      apply_tier tier source path doc (apply_value tier source path key value r)

  -- One key of the loop.
  pub apply_value : ℕ → Text → Text → String → Json → Resolution → Resolution
  apply_value tier source path key (obj inner) r =
      let nested =
        apply_tier tier source (child_path path key) inner
          (record r { merged = dict_or_empty (get_field key r.merged) }) in
      record nested { merged = set_field key (obj nested.merged) r.merged }
  apply_value tier source path key null r = record {
    merged = pop_field key r.merged;
    provenance = record_leaf (child_path path key) tier true source r.provenance;
  }
  apply_value tier source path key (bool b) r = set_leaf tier source path key (bool b) r
  apply_value tier source path key (int n) r = set_leaf tier source path key (int n) r
  apply_value tier source path key (float f) r = set_leaf tier source path key (float f) r
  apply_value tier source path key (str s) r = set_leaf tier source path key (str s) r
  apply_value tier source path key (arr items) r = set_leaf tier source path key (arr items) r

-- for tier, doc, source in docs: _apply_tier(merged, prov, doc, tier, source)
unfoldable pub apply_tiers : List (ℕ × Fields × Text) → Resolution → Resolution
unfolding apply_tier
apply_tiers [] r = r
apply_tiers ((tier, doc, source) ∷ docs) r = apply_tiers docs (apply_tier tier source [] doc r)

-- The document that the tiers add up to, before `_finalize`.
unfoldable pub resolve_tiers : List (ℕ × Fields × Text) → Resolution
unfolding apply_tiers
resolve_tiers docs = apply_tiers docs (record { merged = end; provenance = [] })
