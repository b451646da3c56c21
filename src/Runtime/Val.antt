-- ===== src/Runtime/Val.antt =====
-- `Val` of lucet-runtime-internals/src/val.rs: an argument of a guest function, as its bits.
use lucet.Prelude.{ℕ, Bool, ◌&&◌, true, false, List, [], ◌∷◌}
use lucet.Runtime.Module.{ValueType, i32, i64, f32, f64}

pub data Val : Type 0 where
  c_ptr guest_ptr u_8 u_16 u_32 u_64 i_8 i_16 i_32 i_64 usize isize bool f_32 f_64 : ℕ → Val

unfoldable pub value_type : Val → ValueType
value_type (c_ptr v) = i32
value_type (guest_ptr v) = i32
value_type (u_8 v) = i32
value_type (u_16 v) = i32
value_type (u_32 v) = i32
value_type (u_64 v) = i64
value_type (i_8 v) = i32
value_type (i_16 v) = i32
value_type (i_32 v) = i32
value_type (i_64 v) = i64
value_type (usize v) = i32
value_type (isize v) = i32
value_type (bool v) = i32
value_type (f_32 v) = f32
value_type (f_64 v) = f64

abbrev same_type : ValueType → ValueType → Bool
same_type i32 i32 = true
same_type i64 i64 = true
same_type f32 f32 = true
same_type f64 f64 = true
same_type _ _ = false

-- The loop over the parameters zipped with the arguments.
unfoldable pub args_match : List ValueType → List Val → Bool
unfolding value_type
args_match [] args = true
args_match (p ∷ ps) [] = true
args_match (p ∷ ps) (a ∷ args) = same_type p (value_type a) && args_match ps args
