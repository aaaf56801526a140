-- ===== src/Json.antt =====
-- The values that `json.loads` and YAML yield, and that the program passes on as `Any`. Python's
-- `dict` with text keys is a list of fields in insertion order. A float is kept as its text.
use agentstrata.Prelude.{ℕ, String, Bool}

pub data ℤ : Type 0 where
  pos : ℕ → ℤ
  negsuc : ℕ → ℤ

mutual
  pub data Json : Type 0 where
    null : Json
    bool : Bool → Json
    int : ℤ → Json
    float : String → Json
    str : String → Json
    arr : Items → Json
    obj : Fields → Json

  pub data Items : Type 0 where
    nil : Items
    cons : Json → Items → Items

  pub data Fields : Type 0 where
    end : Fields
    field : String → Json → Fields → Fields
