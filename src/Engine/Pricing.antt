-- ===== src/Engine/Pricing.antt =====
-- app/engine/pricing.py: list prices, in US cents for a million tokens.
use agentstrata.Prelude.{Option, String, String_discrete, [], ℕ, ◌∷◌}
use agentstrata.Prelude.Dict.{Dict, get}

abbrev pub price_catalog : Dict (String × String) (ℕ × ℕ)
price_catalog =
    (("gemini", "gemini-2.5-flash"), (30, 250))
    ∷ (("gemini", "gemini-2.5-pro"), (125, 1000))
    ∷ (("openai", "gpt-4o"), (250, 1000))
    ∷ (("openai", "gpt-4o-mini"), (15, 60))
    ∷ (("openai", "gpt-4.1"), (200, 800))
    ∷ (("openai", "gpt-4.1-mini"), (40, 160))
    ∷ (("azure", "gpt-4o"), (250, 1000))
    ∷ (("azure", "gpt-4o-mini"), (15, 60))
    ∷ (("anthropic", "claude-3-5-sonnet"), (300, 1500))
    ∷ (("anthropic", "claude-3-5-haiku"), (80, 400))
    ∷ (("groq", "llama-3.3-70b"), (59, 79))
    ∷ (("mistral", "mistral-large"), (200, 600))
    ∷ (("deepseek", "deepseek-chat"), (27, 110))
    ∷ (("xai", "grok-2"), (200, 1000))
    ∷ (("cohere", "command-r"), (15, 60))
    ∷ (("cohere", "command-r-plus"), (250, 1000))
    ∷ []

unfoldable pub pair_discrete : Discrete (String × String)
unfolding String_discrete
pair_discrete = hlevel String_discrete

unfoldable pub catalog_price : String → String → Option (ℕ × ℕ)
unfolding pair_discrete
catalog_price provider model = get pair_discrete (provider, model) price_catalog
