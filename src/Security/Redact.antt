-- ===== src/Security/Redact.antt =====
-- app/security/redact.py: which keys are sensitive, and the masking of values under them.
-- Python's `str.lower` is an argument, since it knows all of Unicode.
pub mod Masking
use agentstrata.Json.{
  Fields, Items, Json, arr, bool, cons, end, field, float, int, nil, null, obj, str,
}
use agentstrata.Prelude.{
  Bool, List, String, [], any, false, if◌then◌else◌, ite, keep_if, true, ◌++◌, ◌==◌, ◌||◌, ◌∷◌,
}
use agentstrata.Storage.Model.{codes}
use agentstrata.Text.{Text, ends_with, text_discrete}

-- _STRIP_RE.sub("", key)
unfoldable pub strip : Text → Text
strip [] = []
strip (c ∷ text) = if c == 45 || c == 95 || c == 46 then strip text else c ∷ strip text

unfoldable pub normalize_key : (Text → Text) → String → Text
unfolding strip codes
normalize_key lower key = lower (strip (codes key))

-- _SENSITIVE_SUFFIXES
unfoldable pub sensitive_suffixes : List Text
unfolding codes
sensitive_suffixes =
    codes "authorization"
    ∷ codes "cookie"
    ∷ codes "apikey"
    ∷ codes "token"
    ∷ codes "secret"
    ∷ codes "password"
    ∷ codes "credential"
    ∷ codes "privatekey"
    ∷ codes "accesskey"
    ∷ codes "secretkey"
    ∷ codes "connectionstring"
    ∷ []

-- _REF_SUFFIXES
unfoldable pub ref_suffixes : List Text
unfolding codes
ref_suffixes = codes "env" ∷ codes "file" ∷ codes "ref" ∷ []

-- The loop of `is_sensitive_key`.
unfoldable pub ends_sensitive : Text → List Text → Bool
unfolding ends_with text_discrete ref_suffixes any
ends_sensitive n [] = false
ends_sensitive n (base ∷ bases) =
    ite (text_discrete n base) true (ends_with n base)
    || any (λ ref. ends_with n (base ++ ref)) ref_suffixes
    || ends_sensitive n bases

unfoldable pub is_sensitive_key : (Text → Text) → String → Bool
unfolding normalize_key ends_sensitive sensitive_suffixes
is_sensitive_key lower key = ends_sensitive (normalize_key lower key) sensitive_suffixes

unfoldable mutual
  unfolding is_sensitive_key

  pub mask_value : (Text → Text) → String → Json → Json
  mask_value lower mask null = null
  mask_value lower mask (bool b) = bool b
  mask_value lower mask (int n) = int n
  mask_value lower mask (float f) = float f
  mask_value lower mask (str s) = str s
  mask_value lower mask (arr items) = arr (mask_items lower mask items)
  mask_value lower mask (obj fields) = obj (mask_fields lower mask fields)

  pub mask_items : (Text → Text) → String → Items → Items
  mask_items lower mask nil = nil
  mask_items lower mask (cons v items) =
      cons (mask_value lower mask v) (mask_items lower mask items)

  pub mask_fields : (Text → Text) → String → Fields → Fields
  mask_fields lower mask end = end
  mask_fields lower mask (field k v fields) =
      field k (if is_sensitive_key lower k then str mask else mask_value lower mask v)
        (mask_fields lower mask fields)

-- MASK_API and MASK_TEXT
unfoldable pub mask_for : Bool → String
mask_for api = if api then "<redacted>" else "***"

unfoldable pub sensitive_headers_present : (Text → Text) → List String → List String
unfolding is_sensitive_key keep_if
sensitive_headers_present lower headers = keep_if (is_sensitive_key lower) headers
