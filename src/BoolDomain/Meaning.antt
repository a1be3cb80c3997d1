-- ===== src/BoolDomain/Meaning.antt =====
-- The operations of checker/src/bool_domain.rs as operations on sets of Booleans.
use hepha.Prelude.{arith, ◌≡◌, Bool, ◌||◌, ◌&&◌}
use hepha.BoolDomain.{BoolDomain, join, or, may_be}

-- The join of two elements stands for exactly the Booleans that either stands for.
pub join_exact : (a b : BoolDomain) (x : Bool) → may_be (join a b) x ≡ (may_be a x || may_be b x)
unfolding join
join_exact a b x = ground arith

-- The values of `x || y`, for `x` in one element and `y` in another.
abbrev pub disjunctions : BoolDomain → BoolDomain → Bool → Bool
disjunctions a b Bool.true =
    may_be a Bool.true && may_be b Bool.true
    || may_be a Bool.true && may_be b Bool.false
    || may_be a Bool.false && may_be b Bool.true
disjunctions a b Bool.false = may_be a Bool.false && may_be b Bool.false

-- The disjunction of two elements stands for exactly the values of `x || y`, for `x` in the first and
-- `y` in the second; so it stands for nothing where one of the two is bottom.
pub or_exact : (a b : BoolDomain) (z : Bool) → may_be (or a b) z ≡ disjunctions a b z
unfolding or
or_exact a b z = ground arith

-- A value of each element gives a value of the disjunction.
pub or_sound :
    (a b : BoolDomain) (x y : Bool)
    → may_be a x ≡ Bool.true
    → may_be b y ≡ Bool.true
    → may_be (or a b) (x || y) ≡ Bool.true
unfolding or
or_sound a b x y h k = ground arith
