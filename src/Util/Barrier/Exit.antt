-- ===== src/Util/Barrier/Exit.antt =====
-- About the threads that leave Barrier of src/util/barrier.h.
use parameter_server.Base.{
  ℕ, zero, suc, ◌+◌, ◌-◌, ◌*◌, ◌<◌, ◌≡◌, refl, Bool, true, false, some, none, List, [], ◌∷◌, length,
  some_inj, sym, ◌∙◌, ap, subst, ltb, lt→ltb, ◌==◌, if◌then◌else◌, arith, Bool-cases, inl, inr,
}
use parameter_server.Util.Barrier.{
  Barrier, start, notify_all, leave, block, wake, Step, called, resumed, Reach, here, next,
}

-- How many calls returned true.
unfoldable pub last_ones : List Bool → ℕ
last_ones [] = 0
last_ones (true ∷ bs) = 1 + last_ones bs
last_ones (false ∷ bs) = last_ones bs

-- An upper bound of the steps that are still to come.
abbrev pub remaining : Barrier → ℕ
remaining b = b.num_to_block * 2 + b.waiting + b.woken

pub record IsValid (n : ℕ) (b : Barrier) : Type 0 where
  pub threads : b.num_to_block + b.waiting + b.woken + length b.returned ≡ n
  pub asleep : b.num_to_block ≡ 0 → b.waiting ≡ 0
  pub awake : 0 < b.num_to_block → b.woken ≡ 0
  pub exits : b.num_to_exit + length b.returned ≡ n
  pub none_left : 0 < b.num_to_block → length b.returned ≡ 0
  pub ones : last_ones b.returned ≡ (if b.num_to_exit == 0 then 1 else 0)

start-IsValid : (n : ℕ) → 0 < n → IsValid n (start n)
unfolding last_ones
start-IsValid n h = ground arith

-- What `leave` returns where no CHECK fails.
abbrev left : Barrier → Barrier
left b = record b {
  num_to_exit = b.num_to_exit - 1;
  returned = (b.num_to_exit - 1 == 0) ∷ b.returned;
}

leave_lem : (b : Barrier) → 0 < b.num_to_exit → leave b ≡ some (left b)
unfolding leave
leave_lem b h = rw (lt→ltb 0 b.num_to_exit h) refl

last_ones-left :
    (e : ℕ) (bs : List Bool)
    → 0 < e
    → last_ones bs ≡ (if e == 0 then 1 else 0)
    → last_ones ((e - 1 == 0) ∷ bs) ≡ (if e - 1 == 0 then 1 else 0)
unfolding last_ones
last_ones-left e bs h o = elim (Bool-cases (e - 1 == 0)) [
  | inl f ↦ rw f (ground (arith, o))
  | inr f ↦ rw f (ground (arith, o))
]

left-IsValid :
    (n : ℕ) (b : Barrier)
    → b.num_to_block ≡ 0
    → b.waiting ≡ 0
    → b.woken + length b.returned + 1 ≡ n
    → b.num_to_exit + length b.returned ≡ n
    → last_ones b.returned ≡ (if b.num_to_exit == 0 then 1 else 0)
    → IsValid n (left b)
left-IsValid n b z a t e o = record {
  threads = omega arith;
  asleep = λ h. a;
  awake = λ h. omega (arith, h);
  exits = omega arith;
  none_left = λ h. omega (arith, h);
  ones = last_ones-left b.num_to_exit b.returned (omega arith) o;
}

block-IsValid :
    (n : ℕ) (b : Barrier)
    → IsValid n b
    → 0 < b.num_to_block
    → (c : Barrier) × (block b ≡ some c) × IsValid n c × (remaining c < remaining b)
unfolding block notify_all
block-IsValid n b v h = elim (Bool-cases (ltb 0 (b.num_to_block - 1))) [
  | inl e ↦ (
    record b { num_to_block = b.num_to_block - 1; waiting = b.waiting + 1 },
    rw (lt→ltb 0 b.num_to_block h, e) refl,
    record {
      threads = omega (arith, v.threads);
      asleep = λ z. ground (arith, z);
      awake = λ l. v.awake h;
      exits = v.exits;
      none_left = λ l. v.none_left h;
      ones = v.ones;
    },
    ground arith,
  )
  | inr e ↦
      let last = notify_all (record b { num_to_block = b.num_to_block - 1 }) in
      (
        left last,
        rw (lt→ltb 0 b.num_to_block h, e) (leave_lem last (omega (arith, v.threads, v.exits))),
        left-IsValid n last (ground arith) refl (ground (arith, v.threads)) v.exits v.ones,
        ground arith,
      )
]

wake-IsValid :
    (n : ℕ) (b : Barrier)
    → IsValid n b
    → 0 < b.woken
    → (c : Barrier) × (wake b ≡ some c) × IsValid n c × (remaining c < remaining b)
unfolding wake
wake-IsValid n b v h = elim (Bool-cases (ltb 0 b.num_to_block)) [
  | inl e ↦ absurd (omega (arith, h, v.awake (ground arith)))
  | inr e ↦
      let resting = record b { woken = b.woken - 1 } in
      let z : b.num_to_block ≡ 0 = ground arith in
      (
        left resting,
        rw e (leave_lem resting (omega (arith, v.threads, v.exits))),
        left-IsValid n resting z (v.asleep z) (omega (arith, v.threads, z, v.asleep z)) v.exits
            v.ones,
        omega arith,
      )
]

block_late : (b c : Barrier) → ltb 0 b.num_to_block ≡ false → block b ≡ some c → ⊥
unfolding block
block_late b c t e = let f : block b ≡ none = rw t refl in cc

step_lem :
    (n : ℕ) (b c : Barrier) → IsValid n b → Step b c → IsValid n c × (remaining c < remaining b)
step_lem n b c v (called e) = elim (Bool-cases (ltb 0 b.num_to_block)) [
  | inl t ↦
      let (d, f, w, m) = block-IsValid n b v (ground arith) in
      subst (λ c. IsValid n c × (remaining c < remaining b)) (some_inj (sym f ∙ e)) (w, m)
  | inr t ↦ absurd (block_late b c t e)
]
step_lem n b c v (resumed h e) =
    let (d, f, w, m) = wake-IsValid n b v h in
    subst (λ c. IsValid n c × (remaining c < remaining b)) (some_inj (sym f ∙ e)) (w, m)

Reach-IsValid : (n : ℕ) (c : Barrier) → 0 < n → Reach (start n) c → IsValid n c
Reach-IsValid n c h here = start-IsValid n h
Reach-IsValid n c h (next r s) = (step_lem n _ c (Reach-IsValid n _ h r) s).0

-- Whatever n threads have done with a barrier for n > 0, each thread is still to come, sleeps, was notified or has
-- come back; none has come back before the last one came; and exactly one call has returned true
-- once all have come back, none before.
pub returned_lem :
    (n : ℕ) (b : Barrier)
    → 0 < n
    → Reach (start n) b
    → (b.num_to_block + b.waiting + b.woken + length b.returned ≡ n)
      × (0 < b.num_to_block → length b.returned ≡ 0)
      × (last_ones b.returned ≡ (if length b.returned == n then 1 else 0))
returned_lem n b h r =
    let v = Reach-IsValid n b h r in
    (v.threads, v.none_left, v.ones ∙ ap (λ t. if t then 1 else 0) (ground (arith, v.exits)))

all_returned :
    (n : ℕ) (b : Barrier)
    → IsValid n b
    → b.num_to_block ≡ 0
    → b.woken ≡ 0
    → (length b.returned ≡ n) × (last_ones b.returned ≡ 1)
all_returned n b v z w =
    let a = v.asleep z in
    (omega (arith, v.threads, a), ground (arith, v.threads, v.exits, v.ones, a))

finish :
    (fuel n : ℕ) (a b : Barrier)
    → Reach a b
    → remaining b < fuel
    → IsValid n b
    → (c : Barrier) × Reach a c × (length c.returned ≡ n) × (last_ones c.returned ≡ 1)
finish zero n a b r h v = absurd (omega (arith, h))
finish (suc fuel) n a b r h v = elim (Bool-cases (ltb 0 b.num_to_block)) [
  | inl t ↦
      let (c, e, w, m) = block-IsValid n b v (ground arith) in
      finish fuel n a c (next r (called e)) (omega (arith, h, m)) w
  | inr t ↦ elim (Bool-cases (ltb 0 b.woken)) [
    | inl u ↦
        let (c, e, w, m) = wake-IsValid n b v (ground arith) in
        finish fuel n a c (next r (resumed (ground arith) e)) (omega (arith, h, m)) w
    | inr u ↦ let (l, o) = all_returned n b v (ground arith) (ground arith) in (b, r, l, o)
  ]
]

-- Whatever n threads have done with a barrier for n > 0, each further step lowers the bound of the
-- steps still to come, so that no run is infinite, and some run from there ends with all n having
-- come back, exactly one of them with true.
pub all_return_lem :
    (n : ℕ) (b : Barrier)
    → 0 < n
    → Reach (start n) b
    → ((c : Barrier) → Step b c → remaining c < remaining b)
      × (c : Barrier) × Reach b c
      × (length c.returned ≡ n)
      × (last_ones c.returned ≡ 1)
all_return_lem n b h r =
    let v = Reach-IsValid n b h r in
    let (c, run, l, o) = finish (suc (remaining b)) n b b here (omega arith) v in
    (λ d s. (step_lem n b d v s).1, c, run, l, o)
