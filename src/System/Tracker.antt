-- ===== src/System/Tracker.antt =====
-- RequestTracker of src/system/remote_node.h: a growing bit vector indexed by timestamp.
use parameter_server.Base.{
  ℕ, zero, suc, ◌+◌, ◌-◌, ◌*◌, ◌≤◌, ◌<◌, ◌≡◌, refl, ◌≢◌, ◌⊎◌, inl, inr, Bool, true, false, ◌&&◌,
  ◌||◌, List, [], ◌∷◌, ◌++◌, Option, none, some, arith, ltb, leb, ◌==◌, if◌then◌else◌, length,
  get_or, set, ap, ◌∙◌, sym, some_inj, eqb_refl, int_eq, replicate, length-append, length-replicate,
  ℤ, pos, negsuc, check, ◌>>◌, Bool-cases, eqb_ℤ,
}

pub record Tracker : Type 0 where
  pub done : List Bool

abbrev pub fresh : Tracker
fresh = record { done = [] }

-- The bound that Finish checks.
abbrev pub max_time : ℕ
max_time = 1000000

-- IsFinished(ts): a negative timestamp is finished, and one past the end is not.
unfoldable pub is_finished : Tracker → ℤ → Bool
is_finished t (negsuc n) = true
is_finished t (pos n) = ltb n (length t.done) && get_or t.done n false

-- data_.resize(n) to a larger size: the new bits are false.
unfoldable pub grow : List Bool → ℕ → List Bool
grow bits n = bits ++ replicate (n - length bits) false

mark : List Bool → ℕ → List Bool
unfolding grow
mark bits n = set (if leb (length bits) n then grow bits (n * 2 + 5) else bits) n true

-- Finish(ts)
unfoldable pub finish : Tracker → ℤ → Option Tracker
unfolding mark
finish t (negsuc n) = none
finish t (pos n) = do check (ltb n max_time); some (record { done = mark t.done n })

-- What Finish checks of its argument.
abbrev pub is_within : ℤ → Bool
is_within (negsuc n) = false
is_within (pos n) = ltb n max_time

get_or-set_self :
    (bits : List Bool) (n : ℕ) → n < length bits → get_or (set bits n true) n false ≡ true
get_or-set_self [] n h = elim h [ ]
get_or-set_self (b ∷ bits) zero h = refl
get_or-set_self (b ∷ bits) (suc n) h = get_or-set_self bits n (omega arith)

get_or-set_ne :
    (bits : List Bool) (n m : ℕ) → n ≢ m → get_or (set bits n true) m false ≡ get_or bits m false
get_or-set_ne [] n m h = refl
get_or-set_ne (b ∷ bits) zero zero h = absurd (h refl)
get_or-set_ne (b ∷ bits) zero (suc m) h = refl
get_or-set_ne (b ∷ bits) (suc n) zero h = refl
get_or-set_ne (b ∷ bits) (suc n) (suc m) h = get_or-set_ne bits n m (omega arith)

get_or-replicate : (n m : ℕ) → get_or (replicate n false) m false ≡ false
get_or-replicate zero m = refl
get_or-replicate (suc n) zero = refl
get_or-replicate (suc n) (suc m) = get_or-replicate n m

get_or-append_false :
    (bits : List Bool) (k m : ℕ) → get_or (bits ++ replicate k false) m false ≡ get_or bits m false
get_or-append_false [] k m = get_or-replicate k m
get_or-append_false (b ∷ bits) k zero = refl
get_or-append_false (b ∷ bits) k (suc m) = get_or-append_false bits k m

-- An index past the end reads as false, so the bound test of IsFinished is no restriction.
get_or_out :
    (bits : List Bool) (n : ℕ) → (ltb n (length bits) && get_or bits n false) ≡ get_or bits n false
get_or_out [] zero = refl
get_or_out [] (suc n) = ground arith
get_or_out (b ∷ bits) zero = ground arith
get_or_out (b ∷ bits) (suc n) = ground (arith, get_or_out bits n)

is_finished-eq-get_or : (t : Tracker) (n : ℕ) → is_finished t (pos n) ≡ get_or t.done n false
unfolding is_finished
is_finished-eq-get_or t n = get_or_out t.done n

get_or-set :
    (bits : List Bool) (n m : ℕ)
    → n < length bits
    → get_or (set bits n true) m false ≡ ((n == m) || get_or bits m false)
get_or-set bits n m h = ground (
  arith,
  get_or-set_ne bits n m,
  get_or-set_self bits n,
  ap (λ (k : ℕ). get_or (set bits n true) k false),
)

length-grow : (bits : List Bool) (n : ℕ) → n ≤ length (grow bits n)
unfolding grow
length-grow bits n = omega (
  arith,
  length-append bits (replicate (n - length bits) false),
  length-replicate (n - length bits) false,
)

get_or-mark :
    (bits : List Bool) (n m : ℕ) → get_or (mark bits n) m false ≡ ((n == m) || get_or bits m false)
unfolding mark grow
get_or-mark bits n m = elim (Bool-cases (leb (length bits) n)) [
  | inl h ↦ rw h (
      get_or-set (grow bits (n * 2 + 5)) n m (omega (arith, length-grow bits (n * 2 + 5)))
      ∙ ap (λ b. (n == m) || b) (get_or-append_false bits (n * 2 + 5 - length bits) m))
  | inr h ↦ rw h (get_or-set bits n m (ground arith))
]

is_finished-mark :
    (t : Tracker) (n : ℕ) (s : ℤ)
    → is_finished (record { done = mark t.done n }) s ≡ (eqb_ℤ (pos n) s || is_finished t s)
is_finished-mark t n (negsuc m) = unfold is_finished in refl
is_finished-mark t n (pos m) =
    is_finished-eq-get_or _ m
    ∙ get_or-mark t.done n m
    ∙ ap (λ b. (n == m) || b) (sym (is_finished-eq-get_or t m))

-- Finish aborts exactly outside 0 ≤ ts < 1000000. Where it returns, the timestamp is finished, and
-- every other timestamp is finished or not as it was before, whatever the vector's growth.
pub finish_lem :
    (t : Tracker) (ts : ℤ)
    → ((finish t ts ≡ none) × (is_within ts ≡ false))
      ⊎ ((t' : Tracker) × (finish t ts ≡ some t')
          × (is_within ts ≡ true)
          × ((s : ℤ) → is_finished t' s ≡ (eqb_ℤ ts s || is_finished t s)))
unfolding finish
finish_lem t (negsuc n) = inl (refl, refl)
finish_lem t (pos n) = elim (Bool-cases (ltb n max_time)) [
  | inr h ↦ inl (rw h, h)
  | inl h ↦ inr (record { done = mark t.done n }, rw h, h, is_finished-mark t n)
]

-- A timestamp that was marked is finished.
pub is_finished-finish :
    (t t' : Tracker) (ts : ℤ) → finish t ts ≡ some t' → is_finished t' ts ≡ true
is_finished-finish t t' ts h = elim (finish_lem t ts) [
  | inl (n, _) ↦ cc
  | inr (t'', e, _, law) ↦
      ap (λ x. is_finished x ts) (some_inj (sym h ∙ e))
      ∙ law ts
      ∙ ap (λ b. b || is_finished t ts) (eqb_refl ts)
]
