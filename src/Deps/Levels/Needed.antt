-- ===== src/Deps/Levels/Needed.antt =====
-- What one service needs (`get_service_with_deps` of kepler-daemon/src/deps.rs): the set that
-- `collect_deps` fills, and the order that `topological_sort` makes of it.
pub mod Ordered
pub mod Total
use mathlib.Core.Path.{subst}
use kepler.Prelude.{
  ℕ, zero, suc, ◌+◌, ◌<◌, ◌≡◌, refl, sym, ◌∙◌, ap, String, Bool, true, false, ◌&&◌, none, some,
  List, [], ◌∷◌, ◌++◌, contains, contains-append, string_eq, ◌==◌, length, Bool-cases, Option-cases,
  inl, inr, arith, if◌then◌else◌,
}
use kepler.Prelude.Maps.{keys, lookup, contains_key}
use kepler.Prelude.Result.{Result, ok, err, Result-cases, ◌>>=◌}
use kepler.Errors.{DaemonError}
use kepler.Deps.{Services, RawServiceConfig, names}
use kepler.Deps.Order.{topological_sort}
use kepler.Deps.Order.Counting.{count, count-append, IsNodup, IsSubset, contains_iff}
use kepler.Deps.Order.Edges.{deps_of}
use kepler.Deps.Order.Found.{topological_sort-IsOrdered}
use kepler.Deps.Levels.{collect_each, collect_deps, filter_needed, get_service_with_deps}
use kepler.Deps.Levels.Acyclic.{lookup_deps}

-- A set that holds the dependencies of its members
abbrev pub IsClosed : Services → (String → Bool) → Type 0
IsClosed services p = (x d : String) → p x ≡ true → 0 < count d (deps_of x services) → p d ≡ true

abbrev pub Within : List String → (String → Bool) → Type 0
Within xs p = (x : String) → contains xs x ≡ true → p x ≡ true

module _ (services : Services) where
  -- A set grows, within every closed set that holds what it is grown by, and with the dependencies of
  -- what is new in it.
  abbrev pub Grown : List String → List String → List String → Type 0
  Grown starts needed needed' =
      Within needed (contains needed')
      × Within starts (contains needed')
      × ((p : String → Bool)
          → IsClosed services p
          → Within starts p
          → Within needed p
          → Within needed' p)
      × ((x d : String) (raw : RawServiceConfig)
          → contains needed' x ≡ true
          → contains needed x ≡ false
          → lookup x services ≡ some raw
          → contains (names raw.depends_on) d ≡ true
          → contains needed' d ≡ true)

  abbrev pub Collects : (String → List String → Result DaemonError (List String)) → Type 0
  Collects visit =
      (name : String) (needed needed' : List String)
      → visit name needed ≡ ok needed'
      → Grown (name ∷ []) needed needed'

  pub Within-single : (name : String) (p : String → Bool) → p name ≡ true → Within (name ∷ []) p
  unfolding contains
  Within-single name p h x c =
      let same : name ≡ x = (string_eq.beq_iff name x).0 (ground (arith, c)) in rw (← same) h

  Within-cons :
      (name : String) (xs : List String) (p : String → Bool)
      → p name ≡ true
      → Within xs p
      → Within (name ∷ xs) p
  unfolding contains
  Within-cons name xs p h w x c = elim (Bool-cases (name == x)) [
    | inl same ↦ let eq : name ≡ x = (string_eq.beq_iff name x).0 same in rw (← eq) h
    | inr other ↦ w x (rw other at c)
  ]

  pub contains_head : (name : String) (xs : List String) → contains (name ∷ xs) name ≡ true
  unfolding contains
  contains_head name xs = rw ((string_eq.beq_iff name name).1 refl) refl

  contains_tail :
      (name : String) (xs : List String) (x : String)
      → contains xs x ≡ true
      → contains (name ∷ xs) x ≡ true
  unfolding contains
  contains_tail name xs x h = rw h (ground arith)

  collect_each-Grown :
      (visit : String → List String → Result DaemonError (List String)) (service : String)
      (deps needed needed' : List String)
      → Collects visit
      → collect_each visit services service deps needed ≡ ok needed'
      → Grown deps needed needed'
  unfolding collect_each contains
  collect_each-Grown visit service [] needed needed' visits e =
      let same : needed ≡ needed' = ground arith in
      subst (Grown [] needed) same
        (λ x h. h, λ x h. absurd (cc), λ p closed starts w. w, λ x d raw h k r c. absurd (cc))
  collect_each-Grown visit service (dep ∷ deps) needed needed' visits e =
      elim (Bool-cases (contains_key services dep)) [
        | inr missing ↦ absurd (ground (arith, missing, e))
        | inl known ↦ elim (Result-cases (visit dep needed)) [
          | inl (x, failed) ↦ absurd (ground (arith, known, failed, e))
          | inr (middle, visited) ↦
              let rest : collect_each visit services service deps middle ≡ ok needed' =
                ground (arith, known, visited, e) in
              let (kept, dep_in, least, shut) = visits dep needed middle visited in
              let (kept', deps_in, least', shut') =
                collect_each-Grown visit service deps middle needed' visits rest in
              (
                λ x h. kept' x (kept x h),
                Within-cons dep deps (contains needed')
                    (kept' dep (dep_in dep (contains_head dep []))) deps_in,
                λ p closed starts w.
                    least' p closed (λ x h. starts x (contains_tail dep deps x h))
                      (least p closed (Within-single dep p (starts dep (contains_head dep deps)))
                        w),
                λ x d raw h k r c. elim (Bool-cases (contains middle x)) [
                  | inl there ↦ kept' d (shut x d raw there k r c)
                  | inr later ↦ shut' x d raw h later r c
                ],
              )
        ]
      ]

  -- The branches of `collect_deps`.
  module _ (fuel : ℕ) (service : String) (needed : List String) where
    pub collect_deps_seen :
        contains needed service ≡ true → collect_deps (suc fuel) services service needed ≡ ok needed
    unfolding collect_deps
    collect_deps_seen h = rw (collect_deps, h) refl

    pub collect_deps_unknown :
        contains needed service ≡ false
        → lookup service services ≡ none
        → collect_deps (suc fuel) services service needed ≡ ok (service ∷ needed)
    unfolding collect_deps
    collect_deps_unknown h u = rw (collect_deps, h) (rw u refl)

    pub collect_deps_known :
        (raw : RawServiceConfig)
        → contains needed service ≡ false
        → lookup service services ≡ some raw
        → collect_deps (suc fuel) services service needed
          ≡ collect_each
              (collect_deps fuel services)
              services
              service
              (names raw.depends_on)
              (service ∷ needed)
    unfolding collect_deps
    collect_deps_known raw h u = rw (collect_deps, h) (rw u refl)

  no_fuel :
      (service : String) (needed needed' : List String)
      → collect_deps zero services service needed ≡ ok needed'
      → Grown (service ∷ []) needed needed'
  unfolding collect_deps
  no_fuel service needed needed' e = absurd (cc)

  -- A service is added with what its dependencies grow.
  add-Grown :
      (service : String) (deps needed needed' : List String)
      → ((d : String) → contains deps d ≡ true → 0 < count d (deps_of service services))
      → ((d : String) (raw : RawServiceConfig)
          → lookup service services ≡ some raw
          → contains (names raw.depends_on) d ≡ true
          → contains deps d ≡ true)
      → Grown deps (service ∷ needed) needed'
      → Grown (service ∷ []) needed needed'
  unfolding contains
  add-Grown service deps needed needed' edges whole (kept, deps_in, least, shut) = (
    λ x h. kept x (contains_tail service needed x h),
    Within-single service (contains needed') (kept service (contains_head service needed)),
    λ p closed starts w.
        let here = starts service (contains_head service []) in
        least p closed (λ d h. closed service d here (edges d h))
          (Within-cons service needed p here w),
    λ x d raw h k r c. elim (Bool-cases (service == x)) [
      | inl same ↦
          let eq : service ≡ x = (string_eq.beq_iff service x).0 same in
          deps_in d (whole d raw (rw eq r) c)
      | inr other ↦ shut x d raw h (rw (other, k) refl) r c
    ],
  )

  -- What `collect_deps` adds: the service, and only what every closed set with the service holds.
  pub collect_deps-Grown : (fuel : ℕ) → Collects (collect_deps fuel services)
  unfolding contains
  collect_deps-Grown zero service needed needed' e = no_fuel service needed needed' e
  collect_deps-Grown (suc fuel) service needed needed' e =
      elim (Bool-cases (contains needed service)) [
        | inl seen ↦
            let same : needed ≡ needed' =
              ground (arith, sym (collect_deps_seen fuel service needed seen) ∙ e) in
            subst (Grown (service ∷ []) needed) same (
              λ x h. h,
              Within-single service (contains needed) seen,
              λ p closed starts w. w,
              λ x d raw h k r c. absurd (cc),
            )
        | inr fresh ↦ elim (Option-cases (lookup service services)) [
          | inl unknown ↦
              let same : service ∷ needed ≡ needed' =
                ground (arith, sym (collect_deps_unknown fuel service needed fresh unknown) ∙ e) in
              subst (Grown (service ∷ []) needed) same (
                add-Grown service [] needed (service ∷ needed) (λ d h. absurd (cc))
                  (λ d raw r c. absurd (cc))
                  (
                    λ x h. h,
                    λ x h. absurd (cc),
                    λ p closed starts w. w,
                    λ x d raw h k r c. absurd (cc),
                  ))
          | inr (raw, is_raw) ↦
              add-Grown service (names raw.depends_on) needed needed'
                (λ d h. lookup_deps services service d raw is_raw h)
                (λ d raw' r c. let same : raw' ≡ raw = ground (arith, is_raw, r) in rw same at c)
                (collect_each-Grown (collect_deps fuel services) service (names raw.depends_on)
                  (service ∷ needed) needed' (collect_deps-Grown fuel)
                  (sym (collect_deps_known fuel service needed raw fresh is_raw) ∙ e))
        ]
      ]
