-- ===== src/Storage/Memory/Eviction.antt =====
-- app/storage/memory.py: what `_enforce_run_capacity` evicts.
use agentstrata.Prelude.{
  All, Bool, Bool-cases, List, String, [], arith, false, if_neg, if_pos, inl, inr, ite, keep_if,
  leb, refl, some, subst, true, ℕ, ◌∷◌, ◌≡◌, ◌≤◌,
}
use agentstrata.Prelude.Dict.{Dict, get}
use agentstrata.Prelude.Keys.{IsDict}
use agentstrata.Storage.Memory.Runs.{get_run, insert_by_age, session_runs, sort_by_age}
use agentstrata.Storage.Memory.State.{MemoryBackend, in_session}
use agentstrata.Storage.Memory.WellFormed.{IsWellFormed}
use agentstrata.Storage.Model.{
  RunKey, RunRecord, SessionKey, key_discrete, run_key_discrete, terminal,
}

All-keep_if {ℓ} :
    {A : Type ℓ} (P : A → Type ℓ) (p : A → Bool) (xs : List A) → All P xs → All P (keep_if p xs)
unfolding keep_if
All-keep_if P p [] h = tt
All-keep_if P p (x ∷ xs) h = elim (Bool-cases (p x)) [
  | inl e ↦ rw e (h.0, All-keep_if P p xs h.1)
  | inr e ↦ rw e (All-keep_if P p xs h.1)
]

All-holds {ℓ} : {A : Type ℓ} (p : A → Bool) (xs : List A) → All (λ x. p x ≡ true) (keep_if p xs)
unfolding keep_if
All-holds p [] = tt
All-holds p (x ∷ xs) = elim (Bool-cases (p x)) [
  | inl e ↦ rw e (e, All-holds p xs)
  | inr e ↦ rw e (All-holds p xs)
]

All-insert_by_age :
    (P : RunRecord → Type 0) (r : RunRecord) (xs : List RunRecord)
    → P r
    → All P xs
    → All P (insert_by_age r xs)
unfolding insert_by_age
All-insert_by_age P r [] pr h = (pr, tt)
All-insert_by_age P r (s ∷ xs) pr h = elim (Bool-cases (leb r.updated_at s.updated_at)) [
  | inl e ↦ rw e (pr, h)
  | inr e ↦ rw e (h.0, All-insert_by_age P r xs pr h.1)
]

All-sort_by_age : (P : RunRecord → Type 0) (xs : List RunRecord) → All P xs → All P (sort_by_age xs)
unfolding sort_by_age
All-sort_by_age P [] h = tt
All-sort_by_age P (r ∷ xs) h = All-insert_by_age P r (sort_by_age xs) h.0 (All-sort_by_age P xs h.1)

-- Every entry of a dictionary is what a lookup of its key finds.
All-get {ℓ} :
    {K V : Type ℓ} (dec : Discrete K) (d : Dict K V)
    → IsDict dec d
    → All (λ e. get dec e.0 d ≡ some e.1) d
unfolding get
All-get dec [] h = tt
All-get {K} {V} dec ((k, v) ∷ d) h = (if_pos (dec k k) refl _ _, later d (All-get dec d h.1))
  where
    later :
        (xs : Dict K V)
        → All (λ e. get dec e.0 d ≡ some e.1) xs
        → All (λ e. ite (dec k e.0) (some v) (get dec e.0 d) ≡ some e.1) xs
    later [] a = tt
    later (e ∷ xs) a = (ground (arith, a.0, h.0), later xs a.1)

-- The run is stored under its id in the session, and it is terminal.
abbrev pub IsEvictable : SessionKey → Dict RunKey RunRecord → RunRecord → Type 0
IsEvictable key runs r = (get run_key_discrete (key, r.key.1) runs ≡ some r) × (terminal r ≡ true)

session_runs-stored :
    (key : SessionKey) (runs : Dict RunKey RunRecord)
    → ((k : RunKey) (r : RunRecord) → get run_key_discrete k runs ≡ some r → r.key ≡ k)
    → (d : Dict RunKey RunRecord)
    → All (λ (e : RunKey × RunRecord). get run_key_discrete e.0 runs ≡ some e.1) d
    → All (λ r. get run_key_discrete (key, r.key.1) runs ≡ some r) (session_runs key d)
unfolding session_runs keep_if in_session
session_runs-stored key runs keyed [] a = tt
session_runs-stored key runs keyed ((k, r) ∷ d) a = elim (key_discrete k.0 key) [
  | yes p ↦
      let own : (key, r.key.1) ≡ k = ground (arith, keyed k r a.0) in
      rw (if_pos (key_discrete k.0 key) p) (rw own a.0, session_runs-stored key runs keyed d a.1)
  | no p ↦ rw (if_neg (key_discrete k.0 key) p) (session_runs-stored key runs keyed d a.1)
]

All-and {ℓ} :
    {A : Type ℓ} (P Q : A → Type ℓ) (xs : List A) → All P xs → All Q xs → All (λ x. P x × Q x) xs
All-and P Q [] p q = tt
All-and P Q (x ∷ xs) p q = ((p.0, q.0), All-and P Q xs p.1 q.1)

-- The terminal runs of a session, the oldest first.
abbrev pub terminals : SessionKey → Dict RunKey RunRecord → List RunRecord
terminals key runs = sort_by_age (keep_if terminal (session_runs key runs))

pub terminals-IsEvictable :
    (key : SessionKey) (b : MemoryBackend)
    → IsWellFormed b
    → All (IsEvictable key b.runs) (terminals key b.runs)
terminals-IsEvictable key b h =
    let stored =
      session_runs-stored key b.runs h.keyed b.runs
        (All-get {K = RunKey} {V = RunRecord} run_key_discrete b.runs h.runs) in
    let own = λ (r : RunRecord). get run_key_discrete (key, r.key.1) b.runs ≡ some r in
    let done = λ (r : RunRecord). terminal r ≡ true in
    let runs = session_runs key b.runs in
    All-sort_by_age (IsEvictable key b.runs) (keep_if terminal runs) (
      All-and own done (keep_if terminal runs) (All-keep_if own terminal runs stored)
        (All-holds terminal runs))

All-le :
    (m n : ℕ) (xs : List RunRecord)
    → m ≤ n
    → All (λ r. n ≤ r.updated_at) xs
    → All (λ r. m ≤ r.updated_at) xs
All-le m n [] le h = tt
All-le m n (x ∷ xs) le h = (omega (arith, h.0), All-le m n xs le h.1)

insert_by_age-head :
    (r t : RunRecord) (ys ts xs : List RunRecord)
    → insert_by_age r ys ≡ t ∷ ts
    → ((y : RunRecord) (zs : List RunRecord)
        → ys ≡ y ∷ zs
        → All (λ x. y.updated_at ≤ x.updated_at) xs)
    → (ys ≡ [] → xs ≡ [])
    → (t.updated_at ≤ r.updated_at) × All (λ x. t.updated_at ≤ x.updated_at) xs
unfolding insert_by_age
insert_by_age-head r t [] ts xs e h g = rw (g refl) (ground arith, tt)
insert_by_age-head r t (y ∷ ys) ts xs e h g = elim (Bool-cases (leb r.updated_at y.updated_at)) [
  | inl le ↦ (ground arith, All-le t.updated_at y.updated_at xs (ground arith) (h y ys refl))
  | inr gt ↦ (ground arith, All-le t.updated_at y.updated_at xs (ground arith) (h y ys refl))
]

sort_by_age-nil : (xs : List RunRecord) → sort_by_age xs ≡ [] → xs ≡ []
unfolding sort_by_age insert_by_age
sort_by_age-nil [] h = refl
sort_by_age-nil (x ∷ xs) h = absurd (go (sort_by_age xs) h)
  where
    go : (ys : List RunRecord) → insert_by_age x ys ≡ [] → ⊥
    go [] e = cc
    go (y ∷ ys) e = ground arith

-- The first of the sorted runs is the oldest.
sort_by_age-head :
    (xs : List RunRecord) (t : RunRecord) (ts : List RunRecord)
    → sort_by_age xs ≡ t ∷ ts
    → All (λ r. t.updated_at ≤ r.updated_at) xs
unfolding sort_by_age
sort_by_age-head [] t ts h = tt
sort_by_age-head (x ∷ xs) t ts h =
    insert_by_age-head x t (sort_by_age xs) ts xs h (sort_by_age-head xs) (sort_by_age-nil xs)

All-cons :
    (P : RunRecord → Type 0) (key : SessionKey) (k : RunKey) (s : RunRecord)
    (d : Dict RunKey RunRecord)
    → All P (keep_if terminal (session_runs key ((k, s) ∷ d)))
    → (in_session key k ≡ true → terminal s ≡ true → P s)
      × All P (keep_if terminal (session_runs key d))
unfolding session_runs keep_if
All-cons P key k s d a = elim (Bool-cases (in_session key k)) [
  | inl e ↦ elim (Bool-cases (terminal s)) [
    | inl f ↦ let a' = rw (e, f) at a in ((λ _ _. a'.0), a'.1)
    | inr f ↦ ((λ _ q. cc), rw (e, f) at a)
  ]
  | inr e ↦ ((λ q _. cc), rw e at a)
]

All-lookup :
    (P : RunRecord → Type 0) (key : SessionKey) (id : String) (r : RunRecord)
    (d : Dict RunKey RunRecord)
    → All P (keep_if terminal (session_runs key d))
    → get run_key_discrete (key, id) d ≡ some r
    → terminal r ≡ true
    → P r
unfolding get in_session
All-lookup P key id r [] a here done = absurd (ground arith)
All-lookup P key id r ((k, s) ∷ d) a here done =
    let (first, rest) = All-cons P key k s d a in
    elim (run_key_discrete k (key, id)) [
      | yes p ↦
          let same : s ≡ r = ground arith in subst P same (first (ground arith) (rw same done))
      | no p ↦ All-lookup P key id r d rest (ground arith) done
    ]

-- The first terminal run of a session is its oldest one.
pub terminals-oldest :
    (key : SessionKey) (b : MemoryBackend) (t : RunRecord) (ts : List RunRecord)
    → terminals key b.runs ≡ t ∷ ts
    → (id : String) (r : RunRecord) → get_run (key, id) b ≡ some r
    → terminal r ≡ true
    → t.updated_at ≤ r.updated_at
unfolding get_run
terminals-oldest key b t ts h id r here done =
    All-lookup (λ x. t.updated_at ≤ x.updated_at) key id r b.runs
      (sort_by_age-head (keep_if terminal (session_runs key b.runs)) t ts h) here done

-- With no terminal run to evict, every run of the session is live.
pub terminals-none :
    (key : SessionKey) (b : MemoryBackend)
    → terminals key b.runs ≡ []
    → (id : String) (r : RunRecord) → get_run (key, id) b ≡ some r
    → terminal r ≡ false
unfolding get_run
terminals-none key b h id r here =
    let empty = sort_by_age-nil (keep_if terminal (session_runs key b.runs)) h in
    elim (Bool-cases (terminal r)) [
      | inl done ↦ absurd (All-lookup (λ x. ⊥) key id r b.runs (rw empty tt) here done)
      | inr live ↦ live
    ]
