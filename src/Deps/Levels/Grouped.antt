-- ===== src/Deps/Levels/Grouped.antt =====
-- The levels of `get_start_levels` (kepler-daemon/src/deps.rs) as the lists that it gives.
use kepler.Prelude.{
  ℕ, zero, suc, ◌+◌, ◌≤◌, ◌<◌, ◌≡◌, refl, sym, ap, ◌∙◌, String, Bool, true, false, ◌||◌, ◌&&◌,
  Option, some, List, [], ◌∷◌, ◌++◌, contains, contains-append, string_eq, ◌==◌, length,
  Option-cases, inl, inr, arith, eqb, if◌then◌else◌,
}
use kepler.Prelude.Maps.{keys, values, lookup}
use kepler.Prelude.Result.{ok, err, Result-cases}
use kepler.Errors.{DaemonError}
use kepler.Deps.{Services, RawServiceConfig, names}
use kepler.Deps.Order.{find_missing, sort}
use kepler.Deps.Order.Counting.{count, count-append, IsNodup, contains_iff}
use kepler.Deps.Order.Queue.{count-sort}
use kepler.Deps.Levels.{
  Levels, max, push_at, group, highest_level, empty_levels, sort_all, grouped, compute_levels,
  get_start_levels,
}
use kepler.Deps.Levels.Laws.{Leveled, compute_levels-Leveled}

-- The services of a level; none beyond the last.
abbrev pub level_at : List (List String) → ℕ → List String
level_at [] i = []
level_at (l ∷ ls) zero = l
level_at (l ∷ ls) (suc i) = level_at ls i

has_entry : Levels → String → ℕ → Bool
has_entry [] x i = false
has_entry ((name, level) ∷ m) x i = (name == x && eqb level i) || has_entry m x i

AllBelow : ℕ → Levels → Type 0
AllBelow n [] = Unit {0}
AllBelow n ((name, level) ∷ m) = (level < n) × AllBelow n m

length-push_at :
    (i : ℕ) (x : String) (ls : List (List String)) → length (push_at i x ls) ≡ length ls
unfolding push_at
length-push_at i x [] = refl
length-push_at zero x (l ∷ ls) = refl
length-push_at (suc i) x (l ∷ ls) = ap suc (length-push_at i x ls)

contains-snoc :
    (l : List String) (name x : String) → contains (l ++ name ∷ []) x ≡ (contains l x || name == x)
unfolding contains
contains-snoc l name x = ground (arith, contains-append l (name ∷ []) x)

contains-push_at :
    (level i : ℕ) (name x : String) (ls : List (List String))
    → level < length ls
    → contains (level_at (push_at level name ls) i) x
      ≡ (contains (level_at ls i) x || (name == x && eqb level i))
unfolding push_at
contains-push_at level i name x [] h = absurd (omega arith)
contains-push_at zero zero name x (l ∷ ls) h = ground (arith, contains-snoc l name x)
contains-push_at zero (suc i) name x (l ∷ ls) h = ground arith
contains-push_at (suc level) zero name x (l ∷ ls) h = ground arith
contains-push_at (suc level) (suc i) name x (l ∷ ls) h =
    ground (arith, contains-push_at level i name x ls)

contains-group :
    (m : Levels) (i : ℕ) (x : String) (ls : List (List String))
    → AllBelow (length ls) m
    → contains (level_at (group m ls) i) x ≡ (contains (level_at ls i) x || has_entry m x i)
unfolding group has_entry AllBelow
contains-group [] i x ls h = ground arith
contains-group ((name, level) ∷ m) i x ls (lt, h) =
    let size = length-push_at level name ls in
    let rest : AllBelow (length (push_at level name ls)) m = rw size h in
    ground (
      arith,
      contains-group m i x (push_at level name ls) rest,
      contains-push_at level i name x ls lt,
    )

contains-empty_levels : (n i : ℕ) (x : String) → contains (level_at (empty_levels n) i) x ≡ false
unfolding empty_levels contains
contains-empty_levels zero i x = refl
contains-empty_levels (suc n) zero x = refl
contains-empty_levels (suc n) (suc i) x = contains-empty_levels n i x

length-empty_levels : (n : ℕ) → length (empty_levels n) ≡ n
unfolding empty_levels
length-empty_levels zero = refl
length-empty_levels (suc n) = ap suc (length-empty_levels n)

contains-sort : (l : List String) (x : String) → contains (sort l) x ≡ contains l x
contains-sort l x = ground (arith, contains_iff (sort l) x, contains_iff l x, count-sort x l)

contains-sort_all :
    (ls : List (List String)) (i : ℕ) (x : String)
    → contains (level_at (sort_all ls) i) x ≡ contains (level_at ls i) x
unfolding sort_all
contains-sort_all [] i x = refl
contains-sort_all (l ∷ ls) zero x = contains-sort l x
contains-sort_all (l ∷ ls) (suc i) x = contains-sort_all ls i x

AllBelow-mono : (a b : ℕ) (m : Levels) → a ≤ b → AllBelow a m → AllBelow b m
unfolding AllBelow
AllBelow-mono a b [] le h = tt
AllBelow-mono a b ((name, level) ∷ m) le (lt, h) = (omega arith, AllBelow-mono a b m le h)

highest_level-AllBelow : (m : Levels) → AllBelow (highest_level (values m) + 1) m
unfolding AllBelow highest_level
highest_level-AllBelow [] = tt
highest_level-AllBelow ((name, level) ∷ m) =
    let top = max level (highest_level (values m)) in
    let le : highest_level (values m) + 1 ≤ top + 1 = ground arith in
    (
      ground arith,
      AllBelow-mono (highest_level (values m) + 1) (top + 1) m le (highest_level-AllBelow m),
    )

contains-grouped :
    (m : Levels) (levels : List (List String)) (i : ℕ) (x : String)
    → grouped (ok m) ≡ ok levels
    → contains (level_at levels i) x ≡ has_entry m x i
unfolding grouped
contains-grouped m levels i x e =
    let n = highest_level (values m) + 1 in
    let same : sort_all (group m (empty_levels n)) ≡ levels = ground arith in
    let below : AllBelow (length (empty_levels n)) m =
      rw (length-empty_levels n) (highest_level-AllBelow m) in
    rw (← same) (
      contains-sort_all (group m (empty_levels n)) i x
      ∙ contains-group m i x (empty_levels n) below
      ∙ rw (contains-empty_levels n i x) refl)

has_entry_of_lookup :
    (m : Levels) (x : String) (i : ℕ) → lookup x m ≡ some i → has_entry m x i ≡ true
unfolding has_entry lookup
has_entry_of_lookup [] x i h = cc
has_entry_of_lookup ((name, level) ∷ m) x i h = ground (arith, has_entry_of_lookup m x i)

count_of_entry : (m : Levels) (x : String) (i : ℕ) → has_entry m x i ≡ true → 0 < count x (keys m)
unfolding has_entry count
count_of_entry [] x i h = cc
count_of_entry ((name, level) ∷ m) x i h = ground (arith, count_of_entry m x i)

IsNodup-tail : (x : String) (l : List String) → IsNodup (x ∷ l) → IsNodup l
unfolding count
IsNodup-tail x l h a = ground (arith, h a)

lookup_of_entry :
    (m : Levels) (x : String) (i : ℕ)
    → IsNodup (keys m)
    → has_entry m x i ≡ true
    → lookup x m ≡ some i
unfolding has_entry lookup count
lookup_of_entry [] x i h e = cc
lookup_of_entry ((name, level) ∷ m) x i h e = ground (
  arith,
  h x,
  count_of_entry m x i,
  string_eq.beq_iff name x,
  lookup_of_entry m x i (IsNodup-tail name (keys m) h),
)

-- How many entries of a service there are for a level.
entries : Levels → String → ℕ → ℕ
entries [] x i = 0
entries ((name, level) ∷ m) x i = (if name == x && eqb level i then 1 else 0) + entries m x i

count-snoc :
    (l : List String) (name x : String)
    → count x (l ++ name ∷ []) ≡ count x l + (if name == x then 1 else 0)
unfolding count
count-snoc l name x = ground (arith, count-append x l (name ∷ []))

count-push_at :
    (level i : ℕ) (name x : String) (ls : List (List String))
    → level < length ls
    → count x (level_at (push_at level name ls) i)
      ≡ count x (level_at ls i) + (if name == x && eqb level i then 1 else 0)
unfolding push_at
count-push_at level i name x [] h = absurd (omega arith)
count-push_at zero zero name x (l ∷ ls) h = ground (arith, count-snoc l name x)
count-push_at zero (suc i) name x (l ∷ ls) h = ground arith
count-push_at (suc level) zero name x (l ∷ ls) h = ground arith
count-push_at (suc level) (suc i) name x (l ∷ ls) h =
    ground (arith, count-push_at level i name x ls)

count-group :
    (m : Levels) (i : ℕ) (x : String) (ls : List (List String))
    → AllBelow (length ls) m
    → count x (level_at (group m ls) i) ≡ count x (level_at ls i) + entries m x i
unfolding group entries AllBelow
count-group [] i x ls h = omega arith
count-group ((name, level) ∷ m) i x ls (lt, h) =
    let size = length-push_at level name ls in
    let rest : AllBelow (length (push_at level name ls)) m = rw size h in
    omega
      (arith, count-group m i x (push_at level name ls) rest, count-push_at level i name x ls lt)

entries-le : (m : Levels) (x : String) (i : ℕ) → entries m x i ≤ count x (keys m)
unfolding entries count
entries-le [] x i = omega arith
entries-le ((name, level) ∷ m) x i = ground (arith, entries-le m x i)

count-empty_levels : (n i : ℕ) (x : String) → count x (level_at (empty_levels n) i) ≡ 0
unfolding empty_levels count
count-empty_levels zero i x = refl
count-empty_levels (suc n) zero x = refl
count-empty_levels (suc n) (suc i) x = count-empty_levels n i x

count-sort_all :
    (ls : List (List String)) (i : ℕ) (x : String)
    → count x (level_at (sort_all ls) i) ≡ count x (level_at ls i)
unfolding sort_all
count-sort_all [] i x = refl
count-sort_all (l ∷ ls) zero x = count-sort x l
count-sort_all (l ∷ ls) (suc i) x = count-sort_all ls i x

-- No level has a name twice, where no name has two levels.
grouped-IsNodup :
    (m : Levels) (levels : List (List String)) (i : ℕ)
    → IsNodup (keys m)
    → grouped (ok m) ≡ ok levels
    → IsNodup (level_at levels i)
unfolding grouped
grouped-IsNodup m levels i nodup e x =
    let n = highest_level (values m) + 1 in
    let same : sort_all (group m (empty_levels n)) ≡ levels = ground arith in
    let below : AllBelow (length (empty_levels n)) m =
      rw (length-empty_levels n) (highest_level-AllBelow m) in
    rw (← same) (
      omega (
        arith,
        count-sort_all (group m (empty_levels n)) i x,
        count-group m i x (empty_levels n) below,
        count-empty_levels n i x,
        entries-le m x i,
        nodup x,
      ))

-- Levels in which every service is once, and above all its dependencies.
abbrev pub IsLeveled : Services → List (List String) → Type 0
IsLeveled services levels =
    ((x : String) (i : ℕ)
      → contains (level_at levels i) x ≡ true
      → (raw : RawServiceConfig) × (lookup x services ≡ some raw)
        × ((d : String)
            → contains (names raw.depends_on) d ≡ true
            → (k : ℕ) × (contains (level_at levels k) d ≡ true) × (k < i)))
    × ((x : String)
        → contains (keys services) x ≡ true
        → (i : ℕ) × (contains (level_at levels i) x ≡ true))
    × ((x : String) (i j : ℕ)
        → contains (level_at levels i) x ≡ true
        → contains (level_at levels j) x ≡ true
        → i ≡ j)
    × ((i : ℕ) → IsNodup (level_at levels i))

nil-Leveled : (services : Services) → Leveled services []
unfolding lookup
nil-Leveled services x n h = cc

nil-IsNodup : IsNodup []
unfolding count
nil-IsNodup a = omega arith

grouped-IsLeveled :
    (services : Services) (m : Levels) (levels : List (List String))
    → compute_levels services (keys services) [] ≡ ok m
    → grouped (ok m) ≡ ok levels
    → IsLeveled services levels
grouped-IsLeveled services m levels computed is_grouped =
    let (kept, all_known) = compute_levels-Leveled services (keys services) [] m computed in
    let nodup : IsNodup (keys m) = kept.nodup nil-IsNodup in
    let leveled = kept.leveled (nil-Leveled services) in
    let member = λ (i : ℕ) (x : String). contains-grouped m levels i x is_grouped in
    let known = λ (x : String) (i : ℕ) (h : contains (level_at levels i) x ≡ true).
      lookup_of_entry m x i nodup (sym (member i x) ∙ h) in
    (
      λ x i h.
          let (raw, is_raw, below) = leveled x i (known x i h) in
          (
            raw,
            is_raw,
            λ d c.
                let (k, found, lt) = below d c in
                (k, member k d ∙ has_entry_of_lookup m d k found, lt),
          ),
      λ x c. let (i, found) = all_known x c in (i, member i x ∙ has_entry_of_lookup m x i found),
      λ x i j h k.
          let a = known x i h in
          let b = known x j k in
          let same : ◌≡◌ {A = Option ℕ} (some i) (some j) = sym a ∙ b in ground arith,
      λ i. grouped-IsNodup m levels i nodup is_grouped,
    )

no_levels : (x : DaemonError) (levels : List (List String)) → ¬ (grouped (err x) ≡ ok levels)
unfolding grouped
no_levels x levels e = cc

-- The levels that `get_start_levels` gives hold every service, each in one level only and there once,
-- and no other name; and every dependency of a service is in a level before that of the service.
pub get_start_levels-IsLeveled :
    (services : Services) (levels : List (List String))
    → get_start_levels services ≡ ok levels
    → IsLeveled services levels
unfolding get_start_levels
get_start_levels-IsLeveled services levels e =
    elim (Option-cases (find_missing (keys services) services)) [
      | inr (x, missing) ↦ absurd (ground (arith, missing, e))
      | inl complete ↦
          let result : grouped (compute_levels services (keys services) []) ≡ ok levels =
            rw (complete, get_start_levels) at e in
          elim (Result-cases (compute_levels services (keys services) [])) [
            | inl (x, failed) ↦ absurd (no_levels x levels (rw failed at result))
            | inr (m, computed) ↦
                grouped-IsLeveled services m levels computed (rw computed at result)
          ]
    ]
