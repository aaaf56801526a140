-- ===== src/Engine/Limits/Output.antt =====
-- app/engine/limits.py: the bytes of assistant text that a run lets through.
use agentstrata.Engine.Limits.{RunLimiter, codepoint_prefix, emit_texts, reserve_output}
use agentstrata.Prelude.{
  Bool-cases, List, [], ap, append-nil, append_assoc, arith, false, inl, inr, leb, ltb, refl, sym,
  true, ℕ, ◌++◌, ◌+◌, ◌-◌, ◌<◌, ◌∙◌, ◌∷◌, ◌≡◌, ◌≤◌, ◌⊎◌,
}
use agentstrata.Text.{Text, utf8_length, utf8_length-append, utf8_size, utf8_size_bounds}

-- What may be said of a prefix that was cut at `budget` bytes: it is the text's, it fits, and the
-- next code point would not.
pub record IsLongestPrefix (text : Text) (budget : ℕ) (p : Text) : Type 0 where
  pub rest : Text
  pub splits : text ≡ p ++ rest
  pub fits : utf8_length p ≤ budget
  pub longest : (c : ℕ) (cs : Text) → rest ≡ c ∷ cs → budget < utf8_length p + utf8_size c

pub codepoint_prefix-IsLongestPrefix :
    (text : Text) (budget : ℕ) → IsLongestPrefix text budget (codepoint_prefix text budget)
unfolding codepoint_prefix utf8_length
codepoint_prefix-IsLongestPrefix [] budget = record {
  rest = [];
  splits = refl;
  fits = omega arith;
  longest = λ c cs h. absurd (ground arith);
}
codepoint_prefix-IsLongestPrefix (d ∷ text) budget =
    let ih = codepoint_prefix-IsLongestPrefix text (budget - utf8_size d) in
    elim (Bool-cases (ltb budget (utf8_size d))) [
      | inl over ↦
          rw (over, codepoint_prefix)
            (record {
              rest = d ∷ text;
              splits = refl;
              fits = omega arith;
              longest = λ c cs h. ground arith;
            })
      | inr fit ↦
          rw (fit, codepoint_prefix)
            (record {
              rest = ih.rest;
              splits = ap (◌∷◌ d) ih.splits;
              fits = ground (arith, ih.fits);
              longest = λ c cs h. ground (arith, ih.longest c cs h);
            })
    ]

-- Within the bound, a delta is let through whole, or its longest prefix that fits is and the
-- limit is marked. Either way the counter grows by the bytes let through and stays in the bound.
pub reserve_output-cases :
    (delta : Text) (l : RunLimiter)
    → l.output_bytes ≤ l.max_output_bytes
    → ((reserve_output delta l).1.output_bytes
        ≡ l.output_bytes + utf8_length (reserve_output delta l).0)
      × ((reserve_output delta l).1.output_bytes ≤ l.max_output_bytes)
      × ((((reserve_output delta l).0 ≡ delta)
            × ((reserve_output delta l).1.output_limit_hit ≡ l.output_limit_hit))
          ⊎ (((reserve_output delta l).1.output_limit_hit ≡ true)
              × IsLongestPrefix delta
                  (l.max_output_bytes - l.output_bytes)
                  (reserve_output delta l).0))
unfolding reserve_output utf8_length
reserve_output-cases delta l h =
    let room = l.max_output_bytes - l.output_bytes in
    let cut = codepoint_prefix-IsLongestPrefix delta room in
    elim (Bool-cases (leb l.max_output_bytes l.output_bytes)) [
      | inl full ↦
          rw (full, reserve_output)
            (
              omega arith,
              h,
              inr (
                refl,
                record {
                  rest = delta;
                  splits = refl;
                  fits = omega arith;
                  longest = λ c cs e. ground (arith, utf8_size_bounds c);
                },
              ),
            )
      | inr open_ ↦ elim (Bool-cases (leb (utf8_length delta) room)) [
        | inl whole ↦ rw (open_, whole, reserve_output) (refl, ground arith, inl (refl, refl))
        | inr long ↦
            rw (open_, long, reserve_output) (refl, ground (arith, cut.fits), inr (refl, cut))
      ]
    ]

part_splits :
    (part : Text) (l : RunLimiter)
    → l.output_bytes ≤ l.max_output_bytes
    → (rest : Text) × (part ≡ (reserve_output part l).0 ++ rest)
part_splits part l h = elim (reserve_output-cases part l h).2 [
  | inl (whole, same) ↦ ([], sym (append-nil _ ∙ whole))
  | inr (hit, cut) ↦ (cut.rest, cut.splits)
]

max-reserve_output :
    (part : Text) (l : RunLimiter) → (reserve_output part l).1.max_output_bytes ≡ l.max_output_bytes
unfolding reserve_output
max-reserve_output part l = ground arith

-- All text of a run, had there been no limit.
unfoldable pub whole_text : List Text → Text
whole_text [] = []
whole_text (part ∷ parts) = part ++ whole_text parts

-- For a limiter within its bound whose limit is not marked, the text that a run lets through is a
-- prefix of all its text. With the bytes let through before, it stays within `max_output_bytes`,
-- and it is all the text unless the limit is marked in the end.
pub emit_texts-prefix :
    (parts : List Text) (l : RunLimiter)
    → l.output_bytes ≤ l.max_output_bytes
    → l.output_limit_hit ≡ false
    → ((rest : Text) × (whole_text parts ≡ (emit_texts parts l).0 ++ rest))
      × (l.output_bytes + utf8_length (emit_texts parts l).0 ≤ l.max_output_bytes)
      × (((emit_texts parts l).1.output_limit_hit ≡ true)
          ⊎ (whole_text parts ≡ (emit_texts parts l).0))
unfolding emit_texts whole_text utf8_length
emit_texts-prefix [] l h open_ = (([], refl), omega arith, inr refl)
emit_texts-prefix (part ∷ parts) l h open_ =
    let p = (reserve_output part l).0 in
    let l' = (reserve_output part l).1 in
    let (grown, within, cut) = reserve_output-cases part l h in
    elim (Bool-cases l'.output_limit_hit) [
      | inl hit ↦
          rw (hit, emit_texts)
            (
              (
                (part_splits part l h).0 ++ whole_text parts,
                ap (λ t. t ++ whole_text parts) (part_splits part l h).1 ∙ append_assoc p _ _,
              ),
              omega (arith, grown, within),
              inl hit,
            )
      | inr going ↦
          let kept : p ≡ part = ground (arith, cut) in
          let (rest, small, done) =
            emit_texts-prefix parts l' (omega (arith, within, max-reserve_output part l)) going in
          let tail = (emit_texts parts l').0 in
          rw (going, emit_texts)
            (
              (
                rest.0,
                ap (λ t. part ++ t) rest.1
                    ∙ sym (append_assoc part tail rest.0)
                    ∙ ap (λ t. (t ++ tail) ++ rest.0) (sym kept),
              ),
              omega (arith, small, grown, max-reserve_output part l, utf8_length-append p tail),
              ground (arith, done, kept),
            )
    ]
