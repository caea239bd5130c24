-- ===== src/Deps/Order/Invariant.antt =====
-- The invariant of the loops of `topological_sort`.
use kepler.Prelude.{
  ℕ, zero, suc, ◌+◌, ◌≤◌, ◌<◌, ◌≡◌, refl, String, Bool, true, some, List, [], ◌∷◌, if◌then◌else◌,
  arith, length, contains, ◌==◌, string_eq, Option-cases, inl, inr, eqb, unwrap_or,
}
use kepler.Prelude.Maps.{Map, keys, lookup, insert, contains_key, lookup-insert}
use kepler.Prelude.Result.{ok}
use kepler.Deps.{Services}
use kepler.Deps.Order.{enqueue, release, decrement}
use kepler.Deps.Order.Queue.{count-insert_at}
use kepler.Deps.Order.Counting.{count, one_if, hits, hits-le, count_cons_self}
use kepler.Deps.Order.Edges.{deps_of}

decrement-suc : (n : ℕ) → decrement (suc n) ≡ n
unfolding decrement
decrement-suc n = ground arith

abbrev pub deg : Map String ℕ → String → ℕ
deg degrees x = unwrap_or (lookup x degrees) 0

-- Between two steps: `result` is what was taken from the queue, `pending` the dependents of the
-- last node that are still to be told.
pub record Inv (services : Services) (result pending : List String) (degrees : Map String ℕ)
    (queue : List String) : Type 0 where
  pub balance :
      (x : String)
      → contains (keys services) x ≡ true
      → deg degrees x + hits result (deps_of x services)
        ≡ length (deps_of x services) + count x pending
  pub once : (x : String) → count x result + count x queue ≤ 1
  pub finished :
      (x : String)
      → contains (keys services) x ≡ true
      → deg degrees x ≡ 0
      → count x result + count x queue ≡ 1
  pub blocked : (x : String) → 0 < deg degrees x → count x result + count x queue ≡ 0
  pub known : (x : String) → 0 < count x result + count x queue → contains (keys services) x ≡ true
  pub counted : (x : String) → contains_key degrees x ≡ contains (keys services) x
  pub told : (x : String) → 0 < count x pending → contains (keys services) x ≡ true

module _ (partition_point : (String → Bool) → List String → ℕ) where
  count-enqueue :
      (a x : String) (q : List String)
      → count a (enqueue partition_point x q) ≡ one_if (x == a) + count a q
  unfolding enqueue
  count-enqueue a x q = count-insert_at a x _ q

module _ (services : Services) (result : List String) where
  -- A dependent that is still to be told has a dependency left.
  has_degree :
      (dep : String) (pending queue : List String) (degrees : Map String ℕ)
      → Inv services result (dep ∷ pending) degrees queue
      → (n : ℕ) × (lookup dep degrees ≡ some (suc n))
  has_degree dep pending queue degrees h = elim (Option-cases (lookup dep degrees)) [
    | inl e ↦ absurd (ground (arith, h.counted dep, h.told dep, count_cons_self dep pending))
    | inr (zero, e) ↦ absurd (
        ground (
          arith,
          h.told dep,
          h.balance dep,
          count_cons_self dep pending,
          hits-le result (deps_of dep services) (λ a. omega (arith, h.once a)),
        ))
    | inr (suc n, e) ↦ (n, e)
  ]

module _ (partition_point : (String → Bool) → List String → ℕ) (services : Services)
    (result : List String) where
  count_pending :
      (x dep : String) (pending : List String)
      → count x (dep ∷ pending) ≡ one_if (dep == x) + count x pending
  unfolding count
  count_pending x dep pending = refl

  queue_after : String → ℕ → List String → List String
  queue_after dep n queue = if eqb n 0 then enqueue partition_point dep queue else queue

  -- Telling one dependent keeps the invariant.
  tell-Inv :
      (dep : String) (n : ℕ) (pending queue : List String) (degrees : Map String ℕ)
      → lookup dep degrees ≡ some (suc n)
      → Inv services result (dep ∷ pending) degrees queue
      → Inv services result pending (insert dep n degrees) (queue_after dep n queue)
  unfolding queue_after
  tell-Inv dep n pending queue degrees e h = record {
    balance = λ x k. ground (
      arith,
      lookup-insert dep x n degrees,
      count_pending x dep pending,
      h.balance x k,
      string_eq.beq_iff dep x,
    );
    once = λ x. ground (
      arith,
      h.once x,
      h.blocked x,
      count-enqueue partition_point x dep queue,
      string_eq.beq_iff dep x,
    );
    finished = λ x k. ground (
      arith,
      lookup-insert dep x n degrees,
      h.finished x k,
      h.blocked x,
      string_eq.beq_iff dep x,
      count-enqueue partition_point x dep queue,
    );
    blocked = λ x p. ground (
      arith,
      lookup-insert dep x n degrees,
      h.blocked x,
      string_eq.beq_iff dep x,
      count-enqueue partition_point x dep queue,
    );
    known = λ x p. ground (
      arith,
      h.known x,
      h.told x,
      count_pending x dep pending,
      count-enqueue partition_point x dep queue,
    );
    counted =
        λ x. ground (arith, lookup-insert dep x n degrees, h.counted x, string_eq.beq_iff dep x);
    told = λ x p. h.told x (omega (arith, count_pending x dep pending, p));
  }

  -- The inner loop ends, without an error, with nobody left to tell.
  pub release-Inv :
      (node : String) (pending queue : List String) (degrees : Map String ℕ)
      → Inv services result pending degrees queue
      → (degrees' : Map String ℕ) × (queue' : List String) × (release partition_point node pending
            (degrees, queue)
          ≡ ok (degrees', queue'))
        × Inv services result [] degrees' queue'
  unfolding release queue_after
  release-Inv node [] queue degrees h = (degrees, queue, refl, h)
  release-Inv node (dep ∷ pending) queue degrees h =
      let (n, e) = has_degree services result dep pending queue degrees h in
      let (degrees', queue', r, h') =
        release-Inv node pending (queue_after dep n queue) (insert dep n degrees)
          (tell-Inv dep n pending queue degrees e h) in
      (degrees', queue', rw (e, release, decrement-suc n) r, h')
