-- ===== src/Engine/Mcp/Filtering/Results.antt =====
-- app/engine/mcp/filtering.py: the bound on the bytes of a tool result.
use agentstrata.Engine.Limits.Output.{IsLongestPrefix}
use agentstrata.Engine.Mcp.Filtering.{fitting, suffix, truncate_codepoint_safe}
use agentstrata.Prelude.{
  All, Bool-cases, [], ap, arith, false, inl, inr, leb, leb→le, length, length-take, ltb, refl,
  subst, suc, take, true, zero, ℕ, ◌++◌, ◌+◌, ◌-◌, ◌<◌, ◌∷◌, ◌≡◌, ◌≤◌, ◌⊎◌,
}
use agentstrata.Text.{Text, utf8_length, utf8_length-append, utf8_size}

utf8_length-take-le : (n : ℕ) (text : Text) → utf8_length (take n text) ≤ utf8_length text
unfolding utf8_length
utf8_length-take-le zero text = omega arith
utf8_length-take-le (suc n) [] = omega arith
utf8_length-take-le (suc n) (c ∷ text) = omega (arith, utf8_length-take-le n text)

-- A text of code points below 128 has as many bytes as code points.
utf8_length-ascii : (text : Text) → All (λ c. c < 128) text → utf8_length text ≡ length text
unfolding utf8_length utf8_size
utf8_length-ascii [] h = refl
utf8_length-ascii (c ∷ text) h = ground (arith, utf8_length-ascii text h.1, h.0)

take-ascii : (n : ℕ) (text : Text) → All (λ c. c < 128) text → All (λ c. c < 128) (take n text)
take-ascii zero text h = tt
take-ascii (suc n) [] h = tt
take-ascii (suc n) (c ∷ text) h = (h.0, take-ascii n text h.1)

suffix_ascii : All (λ c. c < 128) suffix
suffix_ascii = omega arith

fitting-IsLongestPrefix :
    (text : Text) (used budget : ℕ)
    → used ≤ budget
    → IsLongestPrefix text (budget - used) (fitting text used budget)
unfolding fitting utf8_length
fitting-IsLongestPrefix [] used budget h = record {
  rest = [];
  splits = refl;
  fits = omega arith;
  longest = λ c cs e. absurd (ground arith);
}
fitting-IsLongestPrefix (d ∷ text) used budget h =
    elim (Bool-cases (ltb budget (used + utf8_size d))) [
      | inl over ↦
          rw (over, fitting)
            (record {
              rest = d ∷ text;
              splits = refl;
              fits = omega arith;
              longest = λ c cs e. ground arith;
            })
      | inr fit ↦
          let ih = fitting-IsLongestPrefix text (used + utf8_size d) budget (ground arith) in
          rw (fit, fitting)
            (record {
              rest = ih.rest;
              splits = ap (◌∷◌ d) ih.splits;
              fits = ground (arith, ih.fits);
              longest = λ c cs e. ground (arith, ih.longest c cs e);
            })
    ]

-- A result that fits is passed on unchanged. One that is too long becomes its longest prefix that
-- leaves room for the marker, with the marker behind it; if there is no room for a prefix, it
-- becomes the marker, cut at the bound. In every case the result fits, and it is flagged exactly
-- if it was too long.
pub truncate_codepoint_safe-cases :
    (text : Text) (max_bytes : ℕ)
    → (utf8_length (truncate_codepoint_safe text max_bytes).0 ≤ max_bytes)
      × (((utf8_length text ≤ max_bytes) × (truncate_codepoint_safe text max_bytes ≡ (text, false)))
          ⊎ ((max_bytes < utf8_length text)
              × (max_bytes ≤ utf8_length suffix)
              × (truncate_codepoint_safe text max_bytes ≡ (take max_bytes suffix, true)))
          ⊎ ((p : Text) × (max_bytes < utf8_length text)
              × (utf8_length suffix < max_bytes)
              × (truncate_codepoint_safe text max_bytes ≡ (p ++ suffix, true))
              × IsLongestPrefix text (max_bytes - utf8_length suffix) p))
unfolding truncate_codepoint_safe
truncate_codepoint_safe-cases text max_bytes =
    let size = utf8_length suffix in
    elim (Bool-cases (leb (utf8_length text) max_bytes)) [
      | inl short ↦
          rw (short, truncate_codepoint_safe) (leb→le _ _ short, inl (leb→le _ _ short, refl))
      | inr long ↦ elim (Bool-cases (leb max_bytes size)) [
        | inl tiny ↦
            let cut = take max_bytes suffix in
            rw (long, tiny, truncate_codepoint_safe)
              (
                omega (
                  arith,
                  utf8_length-ascii cut (take-ascii max_bytes suffix suffix_ascii),
                  length-take max_bytes suffix,
                ),
                inr (inl (ground arith, leb→le _ _ tiny, refl)),
              )
        | inr room ↦
            let p = fitting text 0 (max_bytes - size) in
            let plain : max_bytes - size - 0 ≡ max_bytes - size = omega arith in
            let best =
              subst (λ b. IsLongestPrefix text b p) plain
                (fitting-IsLongestPrefix text 0 (max_bytes - size) (omega arith)) in
            let small : size < max_bytes = ground arith in
            rw (long, room, truncate_codepoint_safe)
              (
                omega (arith, best.fits, utf8_length-append p suffix),
                inr (inr (p, ground arith, small, refl, best)),
              )
      ]
    ]
