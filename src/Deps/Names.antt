-- ===== src/Deps/Names.antt =====
-- The three views of `DependsOn` agree: `names`, `get` and `iter` (config/deps.rs).
use kepler.Prelude.{String, ◌≡◌, sym, refl, true, List, [], ◌∷◌, ◌++◌, arith, contains, string_eq}
use mathlib.Core.List.{map-append}
use kepler.Prelude.Maps.{Map, keys, lookup}
use kepler.Deps.{
  DependencyConfig, simple, extended, DependsOn, names, get, pairs, or_else,
  should_restart_on_dependency, dependencies_with_restart, names_with_restart, restart_of,
}

-- The names are those of the pairs, in order.
pub names-eq-keys : (deps : DependsOn) → names deps ≡ keys (pairs deps)
unfolding names pairs
names-eq-keys [] = refl
names-eq-keys (simple n ∷ deps) = rw (names-eq-keys deps)
names-eq-keys (extended m ∷ deps) =
    rw (names-eq-keys deps) (sym (map-append (λ e. e.0) m (pairs deps)))

lookup-append :
    (name : String) (m n : Map String DependencyConfig)
    → lookup name (m ++ n) ≡ or_else (lookup name m) (lookup name n)
unfolding lookup or_else
lookup-append name [] n = refl
lookup-append name ((k, v) ∷ m) n = ground (arith, lookup-append name m n)

-- `get` is the first of the pairs with the name.
pub get-eq-lookup : (deps : DependsOn) (name : String) → get deps name ≡ lookup name (pairs deps)
unfolding get pairs lookup
get-eq-lookup [] name = refl
get-eq-lookup (simple n ∷ deps) name = ground (arith, get-eq-lookup deps name)
get-eq-lookup (extended m ∷ deps) name =
    rw (get-eq-lookup deps name) (sym (lookup-append name m (pairs deps)))

restart_in_pairs :
    (ps : List (String × DependencyConfig)) (name : String)
    → restart_of (lookup name ps) ≡ true
    → contains (names_with_restart ps) name ≡ true
unfolding restart_of lookup names_with_restart contains
restart_in_pairs [] name h = cc
restart_in_pairs ((k, c) ∷ ps) name h = ground (arith, restart_in_pairs ps name)

-- A dependency whose restart restarts the service is among those that are listed with restart on.
pub should_restart_on_dependency_listed :
    (deps : DependsOn) (name : String)
    → should_restart_on_dependency deps name ≡ true
    → contains (dependencies_with_restart deps) name ≡ true
unfolding should_restart_on_dependency dependencies_with_restart
should_restart_on_dependency_listed deps name h =
    restart_in_pairs (pairs deps) name (rw (← get-eq-lookup deps name) h)
