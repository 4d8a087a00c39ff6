-- ===== src/Util/Range.antt =====
-- src/util/range.h at T = size_t (or Key, which is uint64 too): the range [begin, end), with the
-- unsigned arithmetic of its shifts and of its size written out.
pub mod Laws
pub mod Divide
use parameter_server.Base.{
  ℕ, ◌+◌, ◌-◌, ◌*◌, ◌%◌, ◌^◌, min, max, Bool, ◌&&◌, ◌||◌, not, ltb, leb, ◌==◌,
}

abbrev pub u64_mod : ℕ
u64_mod = 2 ^ 64

pub record Range : Type 0 where
  pub begin : ℕ
  pub end : ℕ

-- size()
unfoldable pub size : Range → ℕ
size r = (r.end + u64_mod - r.begin) % u64_mod

-- valid()
unfoldable pub valid : Range → Bool
valid r = leb r.begin r.end

-- empty()
unfoldable pub empty : Range → Bool
empty r = leb r.end r.begin

-- operator==
unfoldable pub eqb : Range → Range → Bool
eqb r s = (r.begin == s.begin) && (r.end == s.end)

-- operator+
unfoldable pub shift_up : Range → ℕ → Range
shift_up r v = record { begin = (r.begin + v) % u64_mod; end = (r.end + v) % u64_mod }

-- operator-
unfoldable pub shift_down : Range → ℕ → Range
shift_down r v = record {
  begin = (r.begin + u64_mod - v) % u64_mod;
  end = (r.end + u64_mod - v) % u64_mod;
}

-- operator*
unfoldable pub scale : Range → ℕ → Range
scale r v = record { begin = r.begin * v % u64_mod; end = r.end * v % u64_mod }

-- contains(v)
unfoldable pub contains : Range → ℕ → Bool
contains r v = leb r.begin v && ltb v r.end

-- InLeft(other)
unfoldable pub in_left : Range → Range → Bool
in_left r other = leb r.begin other.begin || ((r.begin == other.begin) && leb r.end other.end)

-- InRight(other)
unfoldable pub in_right : Range → Range → Bool
unfolding in_left
in_right r other = not (in_left r other)

-- Project(v)
unfoldable pub project : Range → ℕ → ℕ
project r v = max r.begin (min r.end v)

-- SetIntersection(dest)
unfoldable pub set_intersection : Range → Range → Range
set_intersection r dest = record { begin = max r.begin dest.begin; end = min r.end dest.end }

-- SetUnion(dest)
unfoldable pub set_union : Range → Range → Range
set_union r dest = record { begin = min r.begin dest.begin; end = max r.end dest.end }

-- All()
abbrev pub all : Range
all = record { begin = 0; end = u64_mod - 1 }
