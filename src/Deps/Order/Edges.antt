-- ===== src/Deps/Order/Edges.antt =====
-- What the graph that `topological_sort` builds holds: the in-degree of a service is the number of
-- its dependencies, and it stands among the dependents of another as often as it names it.
use kepler.Prelude.{
  ℕ, ◌+◌, ◌<◌, ◌≡◌, refl, ◌∙◌, String, true, none, some, List, [], ◌∷◌, ◌++◌, if◌then◌else◌, arith,
  length, length-append, contains, ◌==◌, string_eq, beq_refl, unwrap_or,
}
use kepler.Prelude.Maps.{keys, lookup, insert, adjust, contains_key, lookup-insert, lookup-adjust}
use kepler.Prelude.Result.{ok}
use kepler.Deps.{Services, RawServiceConfig, names}
use kepler.Deps.Order.{
  Graph, add_edge, add_deps, add_services, init_graph, build_graph, find_missing, missing_of,
  unwrap_list,
}
use kepler.Deps.Order.Queue.{keys-adjust, keys-insert_nodup}
use kepler.Deps.Order.Counting.{count, one_if, count-append, contains_iff, IsNodup}

-- The dependencies of a service.
unfoldable pub deps_of : String → Services → List String
deps_of x [] = []
deps_of x ((name, raw) ∷ services) =
    (if name == x then names raw.depends_on else []) ++ deps_of x services

abbrev pub degree : Graph → String → ℕ
degree g x = unwrap_or (lookup x g.in_degree) 0

abbrev pub waiting_for : Graph → String → List String
waiting_for g d = unwrap_list (lookup d g.dependents)

-- How a graph grows when `name` is given the dependencies `deps`.
abbrev Grows : Graph → Graph → (String → ℕ) → (String → String → ℕ) → Type 0
Grows g g' more edges =
    ((x : String) → degree g' x ≡ degree g x + more x)
    × ((d x : String) → count x (waiting_for g' d) ≡ count x (waiting_for g d) + edges d x)
    × ((x : String) → contains_key g'.in_degree x ≡ contains_key g.in_degree x)
    × ((x : String) → contains_key g'.dependents x ≡ contains_key g.dependents x)
    × (keys g'.in_degree ≡ keys g.in_degree)

count_one : (x name : String) → count x (name ∷ []) ≡ one_if (name == x)
unfolding count
count_one x name = omega arith

add_edge-Grows :
    (name dep : String) (g : Graph)
    → contains_key g.in_degree name ≡ true
    → contains_key g.dependents dep ≡ true
    → (g' : Graph) × (add_edge name dep g ≡ ok g')
      × Grows g g' (λ x. one_if (name == x)) (λ d x. if name == x then one_if (dep == d) else 0)
unfolding add_edge
add_edge-Grows name dep g hn hd = (
  record {
    in_degree = adjust (λ n. n + 1) name g.in_degree;
    dependents = adjust (λ l. l ++ name ∷ []) dep g.dependents;
  },
  ground arith,
  (
    (λ x. ground (arith, lookup-adjust (λ n. n + 1) name x g.in_degree, string_eq.beq_iff name x)),
    (λ d x. ground (
      arith,
      lookup-adjust (λ l. l ++ name ∷ []) dep d g.dependents,
      string_eq.beq_iff dep d,
      count-append x (waiting_for g d) (name ∷ []),
      count_one x name,
    )),
    (λ x. ground (arith, lookup-adjust (λ n. n + 1) name x g.in_degree)),
    (λ x. ground (arith, lookup-adjust (λ l. l ++ name ∷ []) dep x g.dependents)),
    keys-adjust (λ n. n + 1) name g.in_degree,
  ),
)

count_head : (d : String) (ds : List String) → 0 < count d (d ∷ ds)
unfolding count
count_head d ds = rw (beq_refl d) (omega arith)

count_tail : (a d : String) (ds : List String) → 0 < count a ds → 0 < count a (d ∷ ds)
unfolding count
count_tail a d ds h = omega arith

add_deps-Grows :
    (name : String) (deps : List String) (g : Graph)
    → contains_key g.in_degree name ≡ true
    → ((d : String) → 0 < count d deps → contains_key g.dependents d ≡ true)
    → (g' : Graph) × (add_deps name deps g ≡ ok g')
      × Grows g g'
          (λ x. if name == x then length deps else 0)
          (λ d x. if name == x then count d deps else 0)
unfolding add_deps count
add_deps-Grows name [] g hn hd =
    (g, refl, ((λ x. ground arith), (λ d x. ground arith), (λ x. refl), (λ x. refl), refl))
add_deps-Grows name (dep ∷ deps) g hn hd =
    let (g1, e1, (deg1, dep1, in1, out1, ks1)) =
      add_edge-Grows name dep g hn (hd dep (count_head dep deps)) in
    let (g2, e2, (deg2, dep2, in2, out2, ks2)) =
      add_deps-Grows name deps g1 (in1 name ∙ hn)
        (λ d p. out1 d ∙ hd d (count_tail d dep deps p)) in
    (
      g2,
      rw (e1, add_deps) e2,
      (
        (λ x. ground (arith, deg1 x, deg2 x)),
        (λ d x. ground (arith, dep1 d x, dep2 d x)),
        (λ x. in2 x ∙ in1 x),
        (λ x. out2 x ∙ out1 x),
        ks2 ∙ ks1,
      ),
    )

-- Every service has an in-degree, and every dependency has dependents.
abbrev Knows : Graph → Services → Type 0
Knows g services =
    ((x : String) → 0 < count x (keys services) → contains_key g.in_degree x ≡ true)
    × ((d x : String) → 0 < count d (deps_of x services) → contains_key g.dependents d ≡ true)

module _ (name : String) (raw : RawServiceConfig) (services : Services) where
  length-deps_of :
      (x : String)
      → length (deps_of x ((name, raw) ∷ services))
        ≡ (if name == x then length (names raw.depends_on) else 0) + length (deps_of x services)
  unfolding deps_of
  length-deps_of x = ground (arith, length-append {0} (names raw.depends_on) (deps_of x services))

  count-deps_of :
      (d x : String)
      → count d (deps_of x ((name, raw) ∷ services))
        ≡ (if name == x then count d (names raw.depends_on) else 0) + count d (deps_of x services)
  unfolding deps_of
  count-deps_of d x = ground (arith, count-append d (names raw.depends_on) (deps_of x services))

add_services-Grows :
    (services : Services) (g : Graph)
    → Knows g services
    → (g' : Graph) × (add_services services g ≡ ok g')
      × Grows g g' (λ x. length (deps_of x services)) (λ d x. count d (deps_of x services))
unfolding add_services deps_of count
add_services-Grows [] g k =
    (g, refl, ((λ x. omega arith), (λ d x. omega arith), (λ x. refl), (λ x. refl), refl))
add_services-Grows ((name, raw) ∷ services) g (kin, kout) =
    let (g1, e1, (deg1, dep1, in1, out1, ks1)) =
      add_deps-Grows name (names raw.depends_on) g (kin name (count_head name (keys services)))
        (λ d p.
          kout d name (ground (arith, count-deps_of name raw services d name, beq_refl name))) in
    let (g2, e2, (deg2, dep2, in2, out2, ks2)) = add_services-Grows services g1 (
      (λ x p. in1 x ∙ kin x (count_tail x name (keys services) p)),
      (λ d x p. out1 d ∙ kout d x (omega (arith, count-deps_of name raw services d x))),
    ) in
    (
      g2,
      rw (e1, add_services) e2,
      (
        (λ x. omega (arith, deg1 x, deg2 x, length-deps_of name raw services x)),
        (λ d x. omega (arith, dep1 d x, dep2 d x, count-deps_of name raw services d x)),
        (λ x. in2 x ∙ in1 x),
        (λ x. out2 x ∙ out1 x),
        ks2 ∙ ks1,
      ),
    )

init_graph-in_degree :
    (ns : List String) (g : Graph) (x : String)
    → lookup x (init_graph ns g).in_degree
      ≡ (if contains ns x then some 0 else lookup x g.in_degree)
unfolding init_graph contains
init_graph-in_degree [] g x = refl
init_graph-in_degree (n ∷ ns) g x = ground (
  arith,
  lookup-insert n x 0 g.in_degree,
  init_graph-in_degree ns
      (record { in_degree = insert n 0 g.in_degree; dependents = insert n [] g.dependents }) x,
)

init_graph-dependents :
    (ns : List String) (g : Graph) (x : String)
    → lookup x (init_graph ns g).dependents
      ≡ (if contains ns x then some [] else lookup x g.dependents)
unfolding init_graph contains
init_graph-dependents [] g x = refl
init_graph-dependents (n ∷ ns) g x = ground (
  arith,
  lookup-insert n x [] g.dependents,
  init_graph-dependents ns
      (record { in_degree = insert n 0 g.in_degree; dependents = insert n [] g.dependents }) x,
)

missing_of-none :
    (service : String) (known deps : List String) (d : String)
    → missing_of service known deps ≡ none
    → 0 < count d deps
    → contains known d ≡ true
unfolding missing_of count
missing_of-none service known [] d h p = absurd (omega arith)
missing_of-none service known (dep ∷ deps) d h p =
    ground (arith, string_eq.beq_iff dep d, missing_of-none service known deps d)

-- Where no dependency is missing, each is a known name.
pub find_missing-none :
    (known : List String) (services : Services) (d x : String)
    → find_missing known services ≡ none
    → 0 < count d (deps_of x services)
    → contains known d ≡ true
unfolding find_missing deps_of count
find_missing-none known [] d x h p = absurd (omega arith)
find_missing-none known ((name, raw) ∷ services) d x h p = ground (
  arith,
  count-append d (names raw.depends_on) (deps_of x services),
  missing_of-none name known (names raw.depends_on) d,
  find_missing-none known services d x,
)

missing_of-known :
    (service : String) (known deps : List String)
    → ((d : String) → 0 < count d deps → contains known d ≡ true)
    → missing_of service known deps ≡ none
unfolding missing_of count
missing_of-known service known [] h = refl
missing_of-known service known (dep ∷ deps) h =
    let here : contains known dep ≡ true = h dep (ground (arith, string_eq.beq_iff dep dep)) in
    rw (here) (missing_of-known service known deps (λ d p. h d (omega (arith, p))))

-- Where every dependency is a known name, none is missing.
pub find_missing-known :
    (known : List String) (services : Services)
    → ((d x : String) → 0 < count d (deps_of x services) → contains known d ≡ true)
    → find_missing known services ≡ none
unfolding find_missing deps_of
find_missing-known known [] h = refl
find_missing-known known ((name, raw) ∷ services) h =
    let here : missing_of name known (names raw.depends_on) ≡ none =
      missing_of-known name known (names raw.depends_on) (λ d p. h d name (
        ground (
          arith,
          p,
          string_eq.beq_iff name name,
          count-append d (names raw.depends_on) (deps_of name services),
        ))) in
    rw (here, find_missing)
      (find_missing-known known services (λ d x p. h d x (
        omega (
          arith,
          p,
          count-append d (if name == x then names raw.depends_on else []) (deps_of x services),
        ))))

init_graph-IsNodup :
    (ns : List String) (g : Graph)
    → IsNodup (keys g.in_degree)
    → IsNodup (keys (init_graph ns g).in_degree)
unfolding init_graph
init_graph-IsNodup [] g h = h
init_graph-IsNodup (n ∷ ns) g h =
    init_graph-IsNodup ns
      (record { in_degree = insert n 0 g.in_degree; dependents = insert n [] g.dependents })
      (λ a. keys-insert_nodup n 0 g.in_degree a (h a))

no_edges :
    (ns : List String) (d x : String)
    → count x (waiting_for (init_graph ns (record { in_degree = []; dependents = [] })) d) ≡ 0
unfolding lookup count
no_edges ns d x =
    ground (arith, init_graph-dependents ns (record { in_degree = []; dependents = [] }) d)

-- What the graph of a list of services says.
pub record IsGraphOf (services : Services) (g : Graph) : Type 0 where
  pub degrees : (x : String) → degree g x ≡ length (deps_of x services)
  pub edges : (d x : String) → count x (waiting_for g d) ≡ count d (deps_of x services)
  pub known : (x : String) → contains_key g.in_degree x ≡ contains (keys services) x
  pub nodup : IsNodup (keys g.in_degree)

-- Where no dependency is missing, the graph is built, and it is that of the services.
pub build_graph-IsGraphOf :
    (services : Services)
    → find_missing (keys services) services ≡ none
    → (g : Graph) × (build_graph services ≡ ok g) × IsGraphOf services g
unfolding build_graph lookup
build_graph-IsGraphOf services h =
    let none_yet : Graph = record { in_degree = []; dependents = [] } in
    let start = init_graph (keys services) none_yet in
    let (g, e, (deg, dep, ins, outs, ks)) = add_services-Grows services start (
      (λ x p.
          ground (
            arith,
            init_graph-in_degree (keys services) none_yet x,
            contains_iff (keys services) x,
          )),
      (λ d x p. ground (
        arith,
        init_graph-dependents (keys services) none_yet d,
        find_missing-none (keys services) services d x,
      )),
    ) in
    (
      g,
      e,
      record {
        degrees = λ x. ground (arith, deg x, init_graph-in_degree (keys services) none_yet x);
        edges = λ d x. omega (arith, dep d x, no_edges (keys services) d x);
        known = λ x. ground (arith, ins x, init_graph-in_degree (keys services) none_yet x);
        nodup = λ a.
            rw ks
              (init_graph-IsNodup (keys services) none_yet (λ b. unfold count in omega arith) a);
      },
    )
