-- ===== src/Util/CountMin.antt =====
-- CountMin of src/util/countmin.h, with counters in ℕ that saturate at v_max.
pub mod Estimate
use parameter_server.Base.{
  ℕ, zero, suc, ◌+◌, ◌%◌, min, max, Bool, List, [], ◌==◌, ltb, if◌then◌else◌, get_or, set,
  replicate,
}
use parameter_server.Util.Sketch.{hash, delta_of, advance}

pub record CountMin : Type 0 where
  pub cells : List ℕ
  pub n : ℕ
  pub k : ℕ
  pub v_max : ℕ

-- CountMin()
abbrev pub empty_sketch : CountMin
empty_sketch = record { cells = []; n = 0; k = 1; v_max = 0 }

-- empty()
unfoldable pub is_empty : CountMin → Bool
is_empty s = s.n == 0

-- clear()
unfoldable pub clear : CountMin → CountMin
clear s = record s { cells = []; n = 0 }

-- resize(n, k, v_max)
unfoldable pub resize : ℕ → ℕ → ℕ → CountMin → CountMin
resize n k v_max s = record {
  cells = replicate (max n 64) 0;
  n = max n 64;
  k = min 30 (max 1 k);
  v_max = v_max;
}

-- count > v_max_ - v ? v_max_ : v + count, where the difference is one of `int`s.
unfoldable pub bump : ℕ → ℕ → ℕ → ℕ
bump v_max count v = if ltb v_max (v + count) then v_max else v + count

-- The loop of insert, with j rounds left.
unfoldable pub insert_loop : (v_max n delta count : ℕ) → ℕ → ℕ → List ℕ → List ℕ
unfolding bump
insert_loop v_max n delta count zero h cells = cells
insert_loop v_max n delta count (suc j) h cells =
    insert_loop v_max n delta count j (advance delta h)
      (set cells (h % n) (bump v_max count (get_or cells (h % n) 0)))

-- insert(key, count)
unfoldable pub insert : ℕ → ℕ → CountMin → CountMin
unfolding insert_loop
insert key count s = record s {
  cells = insert_loop s.v_max s.n (delta_of (hash key)) count s.k (hash key) s.cells;
}

-- The loop of query.
unfoldable pub query_loop : (n delta : ℕ) → ℕ → ℕ → List ℕ → ℕ → ℕ
query_loop n delta zero h cells res = res
query_loop n delta (suc j) h cells res =
    query_loop n delta j (advance delta h) cells (min res (get_or cells (h % n) 0))

-- query(key)
unfoldable pub query : ℕ → CountMin → ℕ
unfolding query_loop
query key s = query_loop s.n (delta_of (hash key)) s.k (hash key) s.cells s.v_max
