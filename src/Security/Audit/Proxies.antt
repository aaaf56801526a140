-- ===== src/Security/Audit/Proxies.antt =====
-- app/security/audit.py: which hop is taken for the client.
use mathlib.Core.Option.{some-injective}
use agentstrata.Prelude.{
  All, Bool-cases, List, [], ap, false, inl, inr, none, refl, some, subst, sym, true, ◌++◌, ◌∙◌,
  ◌∷◌, ◌≡◌, ◌⊎◌,
}
use agentstrata.Security.Audit.{
  Addresses, client_of, first_hop, hops_of, or_first, parse_forwarded_for, peer_trusted,
  rightmost_untrusted,
}
use agentstrata.Text.{Text}

module _ (addresses : Addresses) (cidrs : List Text) where
  abbrev pub IsTrusted : Text → Type 0
  IsTrusted hop = peer_trusted addresses hop cidrs ≡ true

  -- Behind `hop` there are trusted proxies only, and `hop` is not one, or it is the first.
  abbrev pub IsClient : List Text → Text → Type 0
  IsClient hops hop =
      (left : List Text) × (right : List Text) × (hops ≡ left ++ hop ∷ right)
      × All IsTrusted right
      × ((peer_trusted addresses hop cidrs ≡ false) ⊎ (left ≡ []))

  rightmost_cases :
      (hops : List Text)
      → (All IsTrusted hops × (rightmost_untrusted addresses cidrs hops ≡ none))
        ⊎ ((hop : Text) × (left : List Text) × (right : List Text) × (rightmost_untrusted addresses
                cidrs hops
              ≡ some hop)
            × (hops ≡ left ++ hop ∷ right)
            × All IsTrusted right
            × (peer_trusted addresses hop cidrs ≡ false))
  unfolding rightmost_untrusted
  rightmost_cases [] = inl (tt, refl)
  rightmost_cases (h ∷ hops) = elim (rightmost_cases hops) [
    | inl (trusted, e) ↦ elim (Bool-cases (peer_trusted addresses h cidrs)) [
      | inl q ↦ inl ((q, trusted), rw (e, q) refl)
      | inr q ↦ inr (h, [], hops, rw (e, q) refl, refl, trusted, q)
    ]
    | inr (hop, left, right, e, split, trusted, q) ↦
        inr (hop, h ∷ left, right, rw e refl, ap (◌∷◌ h) split, trusted, q)
  ]

  first_hop-IsClient :
      (hops : List Text) (hop : Text)
      → All IsTrusted hops
      → first_hop hops ≡ some hop
      → IsClient hops hop
  unfolding first_hop
  first_hop-IsClient [] hop trusted e = absurd cc
  first_hop-IsClient (h ∷ hops) hop trusted e =
      subst (IsClient (h ∷ hops)) (some-injective h hop e) ([], hops, refl, trusted.1, inr refl)

  -- If `client_of` gives a hop, it is the client of the hops.
  client_of_lem :
      (hops : List Text) (hop : Text)
      → client_of addresses hops cidrs ≡ some hop
      → IsClient hops hop
  unfolding client_of or_first
  client_of_lem hops hop e = elim (rightmost_cases hops) [
    | inl (trusted, q) ↦
        let first : client_of addresses hops cidrs ≡ first_hop hops = ap (λ r. or_first r hops) q in
        first_hop-IsClient hops hop trusted (sym first ∙ e)
    | inr (found, left, right, q, split, trusted, r) ↦
        let last : client_of addresses hops cidrs ≡ some found = ap (λ r. or_first r hops) q in
        subst (IsClient hops) (some-injective found hop (sym last ∙ e))
          (left, right, split, trusted, inl r)
  ]

-- If a client is found, then the direct peer is a trusted proxy, and the hop is the last one of
-- the header that is not a trusted proxy, or the first one where all are: the hops behind it
-- are trusted. A client that is not trusted cannot choose the address by the hops that it sends.
pub parse_forwarded_for-IsClient :
    (addresses : Addresses)
    → (strip_spaces : Text → Text) → (header : Text) → (cidrs : List Text) → (direct_peer : Text)
    → (hop : Text) → parse_forwarded_for addresses strip_spaces header cidrs direct_peer ≡ some hop
    → (peer_trusted addresses direct_peer cidrs ≡ true)
      × IsClient addresses cidrs (hops_of strip_spaces header) hop
unfolding parse_forwarded_for
parse_forwarded_for-IsClient addresses strip_spaces [] cidrs peer hop e = cc
parse_forwarded_for-IsClient addresses strip_spaces (c ∷ header) [] peer hop e = cc
parse_forwarded_for-IsClient addresses strip_spaces (c ∷ header) (cidr ∷ cidrs) peer hop e =
    elim (Bool-cases (peer_trusted addresses peer (cidr ∷ cidrs))) [
      | inl q ↦
          let asked : parse_forwarded_for addresses strip_spaces (c ∷ header) (cidr ∷ cidrs) peer
              ≡ client_of addresses (hops_of strip_spaces (c ∷ header)) (cidr ∷ cidrs) =
            rw (q) refl in
          (
            q,
            client_of_lem addresses (cidr ∷ cidrs) (hops_of strip_spaces (c ∷ header)) hop
                (sym asked ∙ e),
          )
      | inr q ↦
          let refused : parse_forwarded_for addresses strip_spaces (c ∷ header) (cidr ∷ cidrs) peer
              ≡ none =
            rw (q) refl in
          absurd cc
    ]
