-- ===== src/Deps/Levels/Laws.antt =====
-- The levels that kepler-daemon/src/deps.rs computes: each service is above all its dependencies.
use mathlib.Core.Path.{subst}
use kepler.Prelude.{
  ℕ, zero, suc, ◌≤◌, ◌<◌, ◌≡◌, ◌≢◌, refl, sym, ◌∙◌, String, true, false, none, some, List, [], ◌∷◌,
  contains, string_eq, ◌==◌, length, Bool-cases, Option-cases, inl, inr, arith,
}
use kepler.Prelude.Maps.{keys, lookup, insert, lookup-insert}
use kepler.Prelude.Result.{ok, err, Result-cases}
use kepler.Errors.{dependency_cycle, service_not_found}
use kepler.Deps.{Services, RawServiceConfig, names}
use kepler.Deps.Order.Counting.{IsNodup}
use kepler.Deps.Order.Queue.{keys-insert_nodup}
use kepler.Deps.Levels.{
  Levels, Visit, max, level_deps, store_level, level_of, compute_level, compute_levels,
}

-- A dependency with a level below a number
abbrev pub Below : Levels → ℕ → String → Type 0
Below levels n d = (k : ℕ) × (lookup d levels ≡ some k) × (k < n)

module _ (services : Services) where
  -- Every service with a level is above all its dependencies.
  abbrev pub Leveled : Levels → Type 0
  Leveled levels =
      (x : String) (n : ℕ)
      → lookup x levels ≡ some n
      → (raw : RawServiceConfig) × (lookup x services ≡ some raw)
        × ((d : String) → contains (names raw.depends_on) d ≡ true → Below levels n d)

  -- Levels are only added, none of them for a service on the stack.
  pub record Kept (stack : List String) (m m' : Levels) : Type 0 where
    grows : (d : String) (k : ℕ) → lookup d m ≡ some k → lookup d m' ≡ some k
    waits : (s : String) → contains stack s ≡ true → lookup s m' ≡ lookup s m
    pub leveled : Leveled m → Leveled m'
    pub nodup : IsNodup (keys m) → IsNodup (keys m')

  Kept-refl : (stack : List String) (m : Levels) → Kept stack m m
  Kept-refl stack m = record {
    grows = λ d k h. h;
    waits = λ s h. refl;
    leveled = λ h. h;
    nodup = λ h. h;
  }

  Kept-trans :
      (stack : List String) (a b c : Levels) → Kept stack a b → Kept stack b c → Kept stack a c
  Kept-trans stack a b c h k = record {
    grows = λ d n e. k.grows d n (h.grows d n e);
    waits = λ s e. k.waits s e ∙ h.waits s e;
    leveled = λ l. k.leveled (h.leveled l);
    nodup = λ n. k.nodup (h.nodup n);
  }

  -- What a visit gives.
  abbrev Visits : List String → Visit → Type 0
  Visits stack visit =
      (name : String) (m : Levels) (level : ℕ) (m' : Levels)
      → visit name m ≡ ok (level, m')
      → Kept stack m m' × (lookup name m' ≡ some level)

  -- A new level, where there was none.
  module _ (name : String) (l : ℕ) (m1 : Levels) (absent : lookup name m1 ≡ none) where
    insert_other :
        (d : String) (k : ℕ) → lookup d m1 ≡ some k → lookup d (insert name l m1) ≡ some k
    insert_other d k h = elim (Bool-cases (name == d)) [
      | inl same ↦
          let eq : name ≡ d = (string_eq.beq_iff name d).0 same in
          let clash : lookup d m1 ≡ none = rw eq at absent in cc
      | inr apart ↦ rw (lookup-insert name d l m1, apart) h
    ]

    insert_self : lookup name (insert name l m1) ≡ some l
    insert_self = rw (lookup-insert name name l m1, (string_eq.beq_iff name name).1 refl) refl

    Below-insert : (n : ℕ) (d : String) → Below m1 n d → Below (insert name l m1) n d
    Below-insert n d (k, h, lt) = (k, insert_other d k h, lt)

    insert-Leveled :
        (raw : RawServiceConfig)
        → lookup name services ≡ some raw
        → ((d : String) → contains (names raw.depends_on) d ≡ true → Below m1 l d)
        → Leveled m1
        → Leveled (insert name l m1)
    insert-Leveled raw is_raw below lv x n e = elim (Bool-cases (name == x)) [
      | inl same ↦
          let eq : name ≡ x = (string_eq.beq_iff name x).0 same in
          let level_is : l ≡ n = ground (arith, lookup-insert name x l m1) in
          (
            raw,
            rw eq at is_raw,
            λ d h.
                subst (λ k. Below (insert name l m1) k d) level_is (Below-insert l d (below d h)),
          )
      | inr apart ↦
          let old : lookup x m1 ≡ some n = ground (arith, lookup-insert name x l m1) in
          let (raw', is_raw', below') = lv x n old in
          (raw', is_raw', λ d h. Below-insert n d (below' d h))
    ]

  -- A new level above those of the dependencies.
  insert-Kept :
      (stack : List String) (name : String) (l : ℕ) (m m1 : Levels) (raw : RawServiceConfig)
      → Kept (name ∷ stack) m m1
      → lookup name m ≡ none
      → contains stack name ≡ false
      → lookup name services ≡ some raw
      → ((d : String) → contains (names raw.depends_on) d ≡ true → Below m1 l d)
      → Kept stack m (insert name l m1) × (lookup name (insert name l m1) ≡ some l)
  unfolding contains
  insert-Kept stack name l m m1 raw kept absent apart is_raw below =
      let listed : contains (name ∷ stack) name ≡ true =
        rw ((string_eq.beq_iff name name).1 refl) refl in
      let absent1 : lookup name m1 ≡ none = kept.waits name listed ∙ absent in
      (
        record {
          grows = λ d k h. insert_other name l m1 absent1 d k (kept.grows d k h);
          waits = λ s h. waits_insert s h;
          leveled = λ lv. insert-Leveled name l m1 absent1 raw is_raw below (kept.leveled lv);
          nodup = λ n a. keys-insert_nodup name l m1 a (kept.nodup n a);
        },
        insert_self name l m1 absent1,
      )
    where
      waits_insert :
          (s : String) → contains stack s ≡ true → lookup s (insert name l m1) ≡ lookup s m
      waits_insert s h = elim (Bool-cases (name == s)) [
        | inl same ↦
            let eq : name ≡ s = (string_eq.beq_iff name s).0 same in
            let clash : contains stack s ≡ false = rw eq at apart in cc
        | inr other ↦
            let on_stack : contains (name ∷ stack) s ≡ true = rw h (ground arith) in
            rw (lookup-insert name s l m1, other) (kept.waits s on_stack)
      ]

  -- The loop over dependencies.
  level_deps-Kept :
      (stack : List String) (visit : Visit) (deps : List String) (highest h : ℕ) (m m' : Levels)
      → Visits stack visit
      → level_deps visit deps highest m ≡ ok (h, m')
      → Kept stack m m'
        × (highest ≤ h)
        × ((d : String) → contains deps d ≡ true → Below m' (suc h) d)
  unfolding level_deps contains
  level_deps-Kept stack visit [] highest h m m' visits e =
      let same : m ≡ m' = ground arith in
      let top : highest ≡ h = ground arith in
      (subst (Kept stack m) same (Kept-refl stack m), omega arith, λ d c. cc)
  level_deps-Kept stack visit (dep ∷ deps) highest h m m' visits e =
      elim (Result-cases (visit dep m)) [
        | inl (x, failed) ↦ absurd (ground (arith, failed, e))
        | inr ((l, m1), visited) ↦
            let rest : level_deps visit deps (max highest l) m1 ≡ ok (h, m') =
              rw (visited, level_deps) at e in
            let (first, known) = visits dep m l m1 visited in
            let (later, above, below) =
              level_deps-Kept stack visit deps (max highest l) h m1 m' visits rest in
            let found = later.grows dep l known in
            let level_le : l ≤ h = ground arith in
            let highest_le : highest ≤ h = ground arith in
            (
              Kept-trans stack m m1 m' first later,
              highest_le,
              λ d c. elim (Bool-cases (dep == d)) [
                | inl same ↦
                    let eq : dep ≡ d = (string_eq.beq_iff dep d).0 same in
                    (l, rw eq at found, omega arith)
                | inr other ↦ below d (rw other at c)
              ],
            )
      ]

  -- A service with its dependencies visited.
  level_of-Kept :
      (stack : List String) (visit : Visit) (name : String) (raw : RawServiceConfig)
      (ns : List String) (m : Levels) (level : ℕ) (m' : Levels)
      → Visits (name ∷ stack) visit
      → lookup name m ≡ none
      → contains stack name ≡ false
      → lookup name services ≡ some raw
      → names raw.depends_on ≡ ns
      → level_of visit name ns m ≡ ok (level, m')
      → Kept stack m m' × (lookup name m' ≡ some level)
  unfolding level_of store_level contains
  level_of-Kept stack visit name raw [] m level m' visits absent apart is_raw ns e =
      let same : insert name 0 m ≡ m' = ground arith in
      let zero_level : 0 ≡ level = ground arith in
      let none_below = λ (d : String) (c : contains (names raw.depends_on) d ≡ true).
        let empty_list : contains {A = String} [] d ≡ true = rw ns at c in
        let clash : Below m 0 d = cc in clash in
      let (kept, found) =
        insert-Kept stack name 0 m m raw (Kept-refl (name ∷ stack) m) absent apart is_raw
          none_below in
      (subst (Kept stack m) same kept, rw (← same, ← zero_level) found)
  level_of-Kept stack visit name raw (dep ∷ deps) m level m' visits absent apart is_raw ns e =
      elim (Result-cases (level_deps visit (dep ∷ deps) 0 m)) [
        | inl (x, failed) ↦ absurd (ground (arith, failed, e))
        | inr ((h, m1), looped) ↦
            let stored : store_level name (ok (h, m1)) ≡ ok (level, m') = rw looped at e in
            let same : insert name (suc h) m1 ≡ m' = ground arith in
            let top : suc h ≡ level = ground arith in
            let (kept, above, below) =
              level_deps-Kept (name ∷ stack) visit (dep ∷ deps) 0 h m m1 visits looped in
            let all_below =
              λ (d : String) (c : contains (names raw.depends_on) d ≡ true). below d (rw ns at c) in
            let (kept', found) =
              insert-Kept stack name (suc h) m m1 raw kept absent apart is_raw all_below in
            (subst (Kept stack m) same kept', rw (← same, ← top) found)
      ]

  no_fuel :
      (stack : List String) (name : String) (m : Levels) (level : ℕ) (m' : Levels)
      → compute_level zero services stack name m ≢ ok (level, m')
  unfolding compute_level
  no_fuel stack name m level m' e = cc

  -- The branches of `compute_level`.
  module _ (fuel : ℕ) (stack : List String) (name : String) (m : Levels) where
    pub compute_level_known :
        (l : ℕ)
        → lookup name m ≡ some l
        → compute_level (suc fuel) services stack name m ≡ ok (l, m)
    unfolding compute_level
    compute_level_known l h = rw (h, compute_level) refl

    compute_level_cycle :
        lookup name m ≡ none
        → contains stack name ≡ true
        → compute_level (suc fuel) services stack name m ≡ err (dependency_cycle (name ∷ []))
    unfolding compute_level
    compute_level_cycle h c = rw (h, compute_level) (rw c refl)

    compute_level_unknown :
        lookup name m ≡ none
        → contains stack name ≡ false
        → lookup name services ≡ none
        → compute_level (suc fuel) services stack name m ≡ err (service_not_found name)
    unfolding compute_level
    compute_level_unknown h c u = rw (h, compute_level) (rw c (rw u refl))

    pub compute_level_fresh :
        (raw : RawServiceConfig)
        → lookup name m ≡ none
        → contains stack name ≡ false
        → lookup name services ≡ some raw
        → compute_level (suc fuel) services stack name m
          ≡ level_of (compute_level fuel services (name ∷ stack)) name (names raw.depends_on) m
    unfolding compute_level
    compute_level_fresh raw h c u = rw (h, compute_level) (rw c (rw u refl))

  compute_level-Visits :
      (fuel : ℕ) (stack : List String) → Visits stack (compute_level fuel services stack)
  compute_level-Visits zero stack name m level m' e = absurd (no_fuel stack name m level m' e)
  compute_level-Visits (suc fuel) stack name m level m' e = elim (Option-cases (lookup name m)) [
    | inr (l, known) ↦
        let result = sym (compute_level_known fuel stack name m l known) ∙ e in
        let same : m ≡ m' = ground arith in
        let level_is : l ≡ level = ground arith in
        (subst (Kept stack m) same (Kept-refl stack m), rw (← same, ← level_is) known)
    | inl absent ↦ elim (Bool-cases (contains stack name)) [
      | inl cycle ↦
          let clash = sym (compute_level_cycle fuel stack name m absent cycle) ∙ e in absurd (cc)
      | inr apart ↦ elim (Option-cases (lookup name services)) [
        | inl unknown ↦
            let clash = sym (compute_level_unknown fuel stack name m absent apart unknown) ∙ e in
            absurd (cc)
        | inr (raw, is_raw) ↦
            level_of-Kept stack (compute_level fuel services (name ∷ stack)) name raw
              (names raw.depends_on) m level m' (compute_level-Visits fuel (name ∷ stack)) absent
              apart is_raw refl
              (sym (compute_level_fresh fuel stack name m raw absent apart is_raw) ∙ e)
      ]
    ]
  ]

  pub compute_levels-Leveled :
      (names_left : List String) (m m' : Levels)
      → compute_levels services names_left m ≡ ok m'
      → Kept [] m m'
        × ((x : String) → contains names_left x ≡ true → (n : ℕ) × (lookup x m' ≡ some n))
  unfolding compute_levels contains
  compute_levels-Leveled [] m m' e =
      let same : m ≡ m' = ground arith in (subst (Kept [] m) same (Kept-refl [] m), λ x c. cc)
  compute_levels-Leveled (name ∷ rest) m m' e =
      elim (Result-cases (compute_level (suc (length services)) services [] name m)) [
        | inl (x, failed) ↦ absurd (ground (arith, failed, e))
        | inr ((l, m1), visited) ↦
            let others : compute_levels services rest m1 ≡ ok m' =
              rw (visited, compute_levels) at e in
            let (first, known) =
              compute_level-Visits (suc (length services)) [] name m l m1 visited in
            let (later, all_known) = compute_levels-Leveled rest m1 m' others in
            let found = later.grows name l known in
            (
              Kept-trans [] m m1 m' first later,
              λ x c. elim (Bool-cases (name == x)) [
                | inl same ↦
                    let eq : name ≡ x = (string_eq.beq_iff name x).0 same in (l, rw eq at found)
                | inr other ↦ all_known x (rw other at c)
              ],
            )
      ]
