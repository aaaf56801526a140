-- ===== src/Security/Audit/Lines.antt =====
-- app/security/audit.py: an audit line is one line.
use agentstrata.Prelude.{
  All, Bool, Bool-cases, List, [], any, arith, false, inl, inr, refl, suc, take, zero, ℕ, ◌++◌,
  ◌==◌, ◌||◌, ◌∷◌, ◌≡◌,
}
use agentstrata.Security.Audit.{audit, audit_events, audit_line, escape_lines, join_rest, kv, safe}
use agentstrata.Storage.Model.{codes}
use agentstrata.Text.{Text, elem}

-- A line feed or a carriage return.
unfoldable pub is_break : ℕ → Bool
is_break c = c == 10 || c == 13

abbrev pub IsOneLine : Text → Type 0
IsOneLine text = any is_break text ≡ false

any-append : (p : ℕ → Bool) (xs ys : Text) → any p (xs ++ ys) ≡ any p xs || any p ys
unfolding any
any-append p [] ys = refl
any-append p (x ∷ xs) ys = ground (arith, any-append p xs ys)

any-take : (p : ℕ → Bool) (n : ℕ) (xs : Text) → any p xs ≡ false → any p (take n xs) ≡ false
unfolding any
any-take p zero xs h = refl
any-take p (suc n) [] h = refl
any-take p (suc n) (x ∷ xs) h = ground (arith, any-take p n xs)

escape_lines-IsOneLine : (text : Text) → IsOneLine (escape_lines text)
unfolding escape_lines any is_break
escape_lines-IsOneLine [] = refl
escape_lines-IsOneLine (c ∷ text) = ground (arith, escape_lines-IsOneLine text)

safe-IsOneLine : (text : Text) → IsOneLine (safe text)
unfolding safe
safe-IsOneLine text = any-take is_break 200 (escape_lines text) (escape_lines-IsOneLine text)

append-IsOneLine : (xs ys : Text) → IsOneLine xs → IsOneLine ys → IsOneLine (xs ++ ys)
append-IsOneLine xs ys h k = rw (any-append is_break xs ys, h, k) refl

abbrev pub IsNamed : List (Text × Text) → Type 0
IsNamed = All (λ (e : Text × Text). IsOneLine e.0)

join_rest-IsOneLine :
    (fields : List (Text × Text)) (text : Text) → IsOneLine text → IsOneLine (join_rest fields text)
unfolding join_rest any is_break
join_rest-IsOneLine [] text h = refl
join_rest-IsOneLine (next ∷ fields) text h = h

kv-IsOneLine : (fields : List (Text × Text)) → IsNamed fields → IsOneLine (kv fields)
unfolding kv any is_break
kv-IsOneLine [] h = refl
kv-IsOneLine ((k, v) ∷ fields) h =
    append-IsOneLine (k ++ b'=' ∷ safe v) (join_rest fields (kv fields))
      (append-IsOneLine k (b'=' ∷ safe v) h.0 (safe-IsOneLine v))
      (join_rest-IsOneLine fields (kv fields) (kv-IsOneLine fields h.1))

audit_line-IsOneLine :
    (event : Text) (fields : List (Text × Text))
    → IsOneLine event
    → IsNamed fields
    → IsOneLine (audit_line event fields)
unfolding audit_line codes any is_break
audit_line-IsOneLine event fields h k =
    append-IsOneLine event (b' ' ∷ kv fields) h (kv-IsOneLine fields k)

-- If the event and the names of the fields have no line break, then no line that `audit` logs
-- has one, whatever the values are: a value cannot add a line.
pub audit-IsOneLine :
    (event : Text) (fields : List (Text × Text))
    → IsOneLine event
    → IsNamed fields
    → All IsOneLine (audit event fields)
unfolding audit codes any is_break
audit-IsOneLine event fields h k = elim (Bool-cases (elem event audit_events)) [
  | inl e ↦ rw e (audit_line-IsOneLine event fields h k, tt)
  | inr e ↦ rw e (
    append-IsOneLine (event ++ codes " fields=") (kv fields)
        (append-IsOneLine event (codes " fields=") h refl) (kv-IsOneLine fields k),
    (audit_line-IsOneLine (codes "audit_unknown") fields refl k, tt),
  )
]
