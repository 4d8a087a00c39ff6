-- ===== src/Util/CountMin/Estimate.antt =====
-- About the estimates of the count-min sketch of src/util/countmin.h.
use parameter_server.Base.{
  ℕ, zero, suc, ◌+◌, ◌%◌, ◌≤◌, ◌<◌, min, max, ◌≡◌, refl, List, [], ◌∷◌, if◌then◌else◌, get_or, set,
  length, arith, ◌==◌, length-set, ap, replicate, length-replicate,
}
use parameter_server.Util.Sketch.{hash, delta_of, advance}
use parameter_server.Util.CountMin.{CountMin, bump, insert_loop, insert, query_loop, query, resize}

get_or-set :
    (cells : List ℕ) (i j v : ℕ)
    → i < length cells
    → get_or (set cells i v) j 0 ≡ (if i == j then v else get_or cells j 0)
get_or-set [] i j v h = elim h [ ]
get_or-set (c ∷ cells) zero zero v h = refl
get_or-set (c ∷ cells) zero (suc j) v h = ground arith
get_or-set (c ∷ cells) (suc i) zero v h = ground arith
get_or-set (c ∷ cells) (suc i) (suc j) v h = ground (arith, get_or-set cells i j v)

-- Every position exists, and every counter is at most v_max.
pub record IsValid (s : CountMin) : Type 0 where
  pub positive : 0 < s.n
  pub sized : length s.cells ≡ s.n
  pub bounded : (p : ℕ) → get_or s.cells p 0 ≤ s.v_max

module _ (v_max n delta : ℕ) where
  -- P holds at each of the j positions from h on.
  abbrev Visited : ℕ → ℕ → (ℕ → Type 0) → Type 0
  Visited zero h P = Unit {0}
  Visited (suc j) h P = P (h % n) × Visited j (advance delta h) P

  Visited-map : (j h : ℕ) (P Q : ℕ → Type 0) → ((p : ℕ) → P p → Q p) → Visited j h P → Visited j h Q
  Visited-map zero h P Q f v = tt
  Visited-map (suc j) h P Q f v = (f (h % n) v.0, Visited-map j (advance delta h) P Q f v.1)

  Visited-zip :
      (j h : ℕ) (P Q R : ℕ → Type 0)
      → ((p : ℕ) → P p → Q p → R p)
      → Visited j h P
      → Visited j h Q
      → Visited j h R
  Visited-zip zero h P Q R f v w = tt
  Visited-zip (suc j) h P Q R f v w =
      (f (h % n) v.0 w.0, Visited-zip j (advance delta h) P Q R f v.1 w.1)

  query_loop-le : (j h : ℕ) (cells : List ℕ) (res : ℕ) → query_loop n delta j h cells res ≤ res
  unfolding query_loop
  query_loop-le zero h cells res = omega arith
  query_loop-le (suc j) h cells res =
      omega (arith, query_loop-le j (advance delta h) cells (min res (get_or cells (h % n) 0)))

  query_loop-Visited :
      (j h : ℕ) (cells : List ℕ) (res q : ℕ)
      → q ≤ query_loop n delta j h cells res
      → Visited j h (λ p. q ≤ get_or cells p 0)
  unfolding query_loop
  query_loop-Visited zero h cells res q le = tt
  query_loop-Visited (suc j) h cells res q le = (
    omega (arith, query_loop-le j (advance delta h) cells (min res (get_or cells (h % n) 0))),
    query_loop-Visited j (advance delta h) cells (min res (get_or cells (h % n) 0)) q le,
  )

  le-query_loop :
      (j h : ℕ) (cells : List ℕ) (res b : ℕ)
      → b ≤ res
      → Visited j h (λ p. b ≤ get_or cells p 0)
      → b ≤ query_loop n delta j h cells res
  unfolding query_loop
  le-query_loop zero h cells res b le v = le
  le-query_loop (suc j) h cells res b le v =
      le-query_loop j (advance delta h) cells (min res (get_or cells (h % n) 0)) b
        (omega (arith, v.0)) v.1

  -- What one insertion does to the counters: none falls, and each stays at most v_max.
  record Grows (cells cells' : List ℕ) : Type 0 where
    sized : length cells' ≡ n
    bounded : (p : ℕ) → get_or cells' p 0 ≤ v_max
    grows : (p : ℕ) → get_or cells p 0 ≤ get_or cells' p 0

  module _ (positive : 0 < n) (count : ℕ) where
    abbrev bumped : List ℕ → ℕ → List ℕ
    bumped cells h = set cells (h % n) (bump v_max count (get_or cells (h % n) 0))

    bumped-Grows :
        (cells : List ℕ) (h : ℕ)
        → length cells ≡ n
        → ((p : ℕ) → get_or cells p 0 ≤ v_max)
        → Grows cells (bumped cells h)
    unfolding bump
    bumped-Grows cells h l b =
        let in_range : h % n < length cells = omega arith in
        record {
          sized =
              omega (arith, length-set cells (h % n) (bump v_max count (get_or cells (h % n) 0)));
          bounded = λ p. ground (
            arith,
            get_or-set cells (h % n) p (bump v_max count (get_or cells (h % n) 0)) in_range,
            b p,
          );
          grows = λ p. ground (
            arith,
            get_or-set cells (h % n) p (bump v_max count (get_or cells (h % n) 0)) in_range,
            b p,
            ap (λ q. get_or cells q 0) {x = h % n} {y = p},
          );
        }

    insert_loop-Grows :
        (j h : ℕ) (cells : List ℕ)
        → length cells ≡ n
        → ((p : ℕ) → get_or cells p 0 ≤ v_max)
        → Grows cells (insert_loop v_max n delta count j h cells)
    unfolding insert_loop
    insert_loop-Grows zero h cells l b = record { sized = l; bounded = b; grows = λ p. omega arith }
    insert_loop-Grows (suc j) h cells l b =
        let one = bumped-Grows cells h l b in
        let rest = insert_loop-Grows j (advance delta h) (bumped cells h) one.sized one.bounded in
        record {
          sized = rest.sized;
          bounded = rest.bounded;
          grows = λ p. omega (arith, one.grows p, rest.grows p);
        }

    bump_mono : (u v : ℕ) → u ≤ v → bump v_max count u ≤ bump v_max count v
    unfolding bump
    bump_mono u v h = ground arith

    bumped_self :
        (cells : List ℕ) (h : ℕ)
        → length cells ≡ n
        → get_or (bumped cells h) (h % n) 0 ≡ bump v_max count (get_or cells (h % n) 0)
    bumped_self cells h l =
        let in_range : h % n < length cells = omega arith in
        ground (
          arith,
          get_or-set cells (h % n) (h % n) (bump v_max count (get_or cells (h % n) 0)) in_range,
        )

    insert_loop-Visited :
        (j h : ℕ) (cells : List ℕ)
        → length cells ≡ n
        → ((p : ℕ) → get_or cells p 0 ≤ v_max)
        → Visited j h (λ p.
          bump v_max count (get_or cells p 0)
          ≤ get_or (insert_loop v_max n delta count j h cells) p 0)
    unfolding insert_loop
    insert_loop-Visited zero h cells l b = tt
    insert_loop-Visited (suc j) h cells l b =
        let one = bumped-Grows cells h l b in
        let rest = insert_loop-Grows j (advance delta h) (bumped cells h) one.sized one.bounded in
        (
          omega (arith, bumped_self cells h l, rest.grows (h % n)),
          Visited-map j (advance delta h) _ _
              (λ p le.
                omega
                  (arith, bump_mono (get_or cells p 0) (get_or (bumped cells h) p 0) (one.grows p)))
              (insert_loop-Visited j (advance delta h) (bumped cells h) one.sized one.bounded),
        )

at_least : (v_max count q c c' : ℕ) → q ≤ c → bump v_max count c ≤ c' → min v_max (q + count) ≤ c'
unfolding bump
at_least v_max count q c c' h up = ground arith

-- On a valid sketch the estimate of a key rises by at least what is inserted for it, or is at the
-- ceiling v_max; no estimate of another key falls; and the sketch stays valid.
pub query-insert :
    (key count : ℕ) (s : CountMin)
    → IsValid s
    → (min s.v_max (query key s + count) ≤ query key (insert key count s))
      × ((other : ℕ) → query other s ≤ query other (insert key count s))
      × IsValid (insert key count s)
unfolding query insert
query-insert key count s v =
    let d = delta_of (hash key) in
    let all =
      insert_loop-Grows s.v_max s.n d v.positive count s.k (hash key) s.cells v.sized v.bounded in
    (
      le-query_loop s.v_max s.n d s.k (hash key) _ s.v_max _ (omega arith) (
          Visited-zip s.v_max s.n d s.k (hash key) _ _ _
            (λ p le up.
              at_least s.v_max count (query_loop s.n d s.k (hash key) s.cells s.v_max) _ _ le up)
            (query_loop-Visited s.v_max s.n d s.k (hash key) s.cells s.v_max _ (omega arith))
            (insert_loop-Visited s.v_max s.n d v.positive count s.k (hash key) s.cells v.sized
              v.bounded)),
      λ other.
          let d' = delta_of (hash other) in
          le-query_loop s.v_max s.n d' s.k (hash other) _ s.v_max _
            (query_loop-le s.v_max s.n d' s.k (hash other) s.cells s.v_max)
            (Visited-map s.v_max s.n d' s.k (hash other)
              (λ p. query_loop s.n d' s.k (hash other) s.cells s.v_max ≤ get_or s.cells p 0)
              (λ p.
                query_loop s.n d' s.k (hash other) s.cells s.v_max
                ≤ get_or (insert_loop s.v_max s.n d count s.k (hash key) s.cells) p 0)
              (λ p le. omega (arith, le, all.grows p))
              (query_loop-Visited s.v_max s.n d' s.k (hash other) s.cells s.v_max _ (omega arith))),
      record { positive = v.positive; sized = all.sized; bounded = all.bounded },
    )

-- insert leaves the ceiling as it is.
pub insert-v_max : (key count : ℕ) (s : CountMin) → (insert key count s).v_max ≡ s.v_max
unfolding insert
insert-v_max key count s = refl

get_or-replicate : (n p : ℕ) → get_or {A = ℕ} (replicate n 0) p 0 ≡ 0
get_or-replicate zero p = refl
get_or-replicate (suc n) zero = refl
get_or-replicate (suc n) (suc p) = get_or-replicate n p

-- A new sketch is valid, whatever size was asked for.
pub resize-IsValid : (n k v_max : ℕ) (s : CountMin) → IsValid (resize n k v_max s)
unfolding resize
resize-IsValid n k v_max s = record {
  positive = omega arith;
  sized = length-replicate (max n 64) 0;
  bounded = λ p. omega (arith, get_or-replicate (max n 64) p);
}
