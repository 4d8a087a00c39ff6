-- ===== src/Filter/Frequency.antt =====
-- FreqencyFilter of src/filter/frequency_filter.h, over the count-min sketch of src/util/countmin.h.
use parameter_server.Base.{
  ℕ, ◌+◌, ◌≤◌, ◌<◌, min, ◌≡◌, refl, ap, sym, subst, ==_iff, ◌∙◌, true, ◌&&◌, List, [], ◌∷◌, Option,
  some, arith, ltb, lt→ltb, ◌==◌, if◌then◌else◌, length, check, ◌>>◌,
}
use parameter_server.Util.CountMin
use parameter_server.Util.CountMin.{CountMin}
use parameter_server.Util.CountMin.Estimate.{IsValid, query-insert, insert-v_max}
use parameter_server.Util.SortedArray.Laws.{mem}

-- Resize(n, k)
unfoldable pub resize_filter : ℕ → ℕ → CountMin → CountMin
resize_filter n k filter = CountMin.resize n k 254 filter

-- The loop of InsertKeys.
unfoldable pub insert_keys_loop : List ℕ → List ℕ → CountMin → CountMin
insert_keys_loop (key ∷ keys) (count ∷ counts) filter =
    insert_keys_loop keys counts (CountMin.insert key count filter)
insert_keys_loop keys counts filter = filter

-- InsertKeys(key, count)
unfoldable pub insert_keys : List ℕ → List ℕ → CountMin → Option CountMin
unfolding insert_keys_loop
insert_keys keys counts filter = do
  check (length keys == length counts)
  some (insert_keys_loop keys counts filter)

-- The loop of QueryKeys.
unfoldable pub query_keys_loop : List ℕ → ℕ → CountMin → List ℕ
query_keys_loop [] freq filter = []
query_keys_loop (key ∷ keys) freq filter =
    let rest = query_keys_loop keys freq filter in
    if ltb freq (CountMin.query key filter) then key ∷ rest else rest

-- QueryKeys(key, freq_thr)
unfoldable pub query_keys : List ℕ → ℕ → CountMin → Option (List ℕ)
unfolding query_keys_loop
query_keys keys freq filter = do check (ltb freq 255); some (query_keys_loop keys freq filter)

-- How often a key was inserted by one call.
unfoldable pub total_count : ℕ → List ℕ → List ℕ → ℕ
total_count key (k ∷ keys) (c ∷ counts) = (if k == key then c else 0) + total_count key keys counts
total_count key keys counts = 0

-- What the filter answers for a key after a call of InsertKeys.
pub record IsRaised (key total : ℕ) (filter after : CountMin) : Type 0 where
  pub raised : min filter.v_max (CountMin.query key filter + total) ≤ CountMin.query key after
  pub same_max : after.v_max ≡ filter.v_max
  pub still_valid : IsValid after

raised_self :
    (key k c : ℕ) (filter : CountMin)
    → IsValid filter
    → key ≡ k
    → min filter.v_max (CountMin.query key filter + c)
      ≤ CountMin.query key (CountMin.insert k c filter)
raised_self key k c filter valid e =
    subst
      (λ j.
        min filter.v_max (CountMin.query j filter + c)
        ≤ CountMin.query j (CountMin.insert k c filter))
      (sym e) (query-insert k c filter valid).0

raised_one :
    (key k c : ℕ) (filter : CountMin)
    → IsValid filter
    → min filter.v_max (CountMin.query key filter + (if k == key then c else 0))
      ≤ CountMin.query key (CountMin.insert k c filter)
raised_one key k c filter valid =
    let other = (query-insert k c filter valid).1 key in
    let self = raised_self key k c filter valid in ground (arith, ==_iff k key, other, self)

raise_step :
    (key k c total : ℕ) (filter after : CountMin)
    → IsValid filter
    → IsRaised key total (CountMin.insert k c filter) after
    → IsRaised key ((if k == key then c else 0) + total) filter after
raise_step key k c total filter after valid r =
    let one = raised_one key k c filter valid in
    let same = insert-v_max k c filter in
    record {
      raised = omega (arith, r.raised, one, same);
      same_max = r.same_max ∙ same;
      still_valid = r.still_valid;
    }

insert_keys_loop-IsRaised :
    (key : ℕ) (keys counts : List ℕ) (filter : CountMin)
    → IsValid filter
    → IsRaised key (total_count key keys counts) filter (insert_keys_loop keys counts filter)
unfolding insert_keys_loop total_count
insert_keys_loop-IsRaised key (k ∷ keys) (c ∷ counts) filter valid =
    let next = (query-insert k c filter valid).2 in
    raise_step key k c _ filter _ valid
      (insert_keys_loop-IsRaised key keys counts (CountMin.insert k c filter) next)
insert_keys_loop-IsRaised key [] counts filter valid = record {
  raised = omega arith;
  same_max = refl;
  still_valid = valid;
}
insert_keys_loop-IsRaised key (k ∷ keys) [] filter valid = record {
  raised = omega arith;
  same_max = refl;
  still_valid = valid;
}

mem-query_keys_loop :
    (key : ℕ) (keys : List ℕ) (freq : ℕ) (filter : CountMin)
    → mem key (query_keys_loop keys freq filter)
      ≡ (mem key keys && ltb freq (CountMin.query key filter))
unfolding query_keys_loop mem
mem-query_keys_loop key [] freq filter = refl
mem-query_keys_loop key (k ∷ keys) freq filter =
    let same : k ≡ key → CountMin.query k filter ≡ CountMin.query key filter =
      λ e. ap (λ j. CountMin.query j filter) e in
    ground (arith, ==_iff k key, same, mem-query_keys_loop key keys freq filter)

-- A key that one call of InsertKeys counts more than `freq` times, and that is asked for, is in
-- the answer of QueryKeys with that threshold after it, and both calls return. The filter is a
-- valid sketch with the ceiling that Resize sets, `freq` is below that ceiling, and there is one
-- count for each key.
pub mem-query_keys :
    (key freq : ℕ) (keys counts asked : List ℕ) (filter : CountMin)
    → IsValid filter
    → filter.v_max ≡ 254
    → freq < 254
    → length keys ≡ length counts
    → freq < total_count key keys counts
    → mem key asked ≡ true
    → (after : CountMin) × (answer : List ℕ) × (insert_keys keys counts filter ≡ some after)
      × (query_keys asked freq after ≡ some answer)
      × (mem key answer ≡ true)
unfolding insert_keys query_keys
mem-query_keys key freq keys counts asked filter valid ceiling below sizes often asks =
    let after = insert_keys_loop keys counts filter in
    let r = insert_keys_loop-IsRaised key keys counts filter valid in
    let above : freq < CountMin.query key after = omega (arith, r.raised) in
    (
      after,
      query_keys_loop asked freq after,
      rw ((==_iff (length keys) (length counts)).1 sizes) refl,
      rw (lt→ltb freq 255 (omega arith)) refl,
      mem-query_keys_loop key asked freq after ∙ rw (asks, lt→ltb freq _ above) refl,
    )
