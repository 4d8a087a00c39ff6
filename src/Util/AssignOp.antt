-- ===== src/Util/AssignOp.antt =====
-- src/util/assign_op.h: the assignment operators on a value type. The type and its arithmetic are a
-- parameter, since the program uses floats and machine integers alike.
use parameter_server.Base.{Option, none, some}

-- AssignOpType of util/proto/assign_op.proto.
pub data AssignOpType : Type 0 where
  assign plus minus times divide and or xor : AssignOpType

pub record Arith : Type 1 where
  pub V : Type 0
  pub zero_value : V
  pub add : V → V → V
  pub sub : V → V → V
  pub mul : V → V → V
  pub div : V → V → V
  pub bit_and : V → V → V
  pub bit_or : V → V → V
  pub bit_xor : V → V → V

module _ (F : Arith) where
  open F use {V, add, sub, mul, div, bit_and, bit_or, bit_xor}

  -- AssignOp: right op= left. The bit operators end the process.
  unfoldable pub assign_op : AssignOpType → V → V → Option V
  assign_op assign right left = some left
  assign_op plus right left = some (add right left)
  assign_op minus right left = some (sub right left)
  assign_op times right left = some (mul right left)
  assign_op divide right left = some (div right left)
  assign_op and right left = none
  assign_op or right left = none
  assign_op xor right left = none

  -- AssignOpI: the version for integers.
  unfoldable pub assign_op_i : AssignOpType → V → V → V
  assign_op_i assign right left = left
  assign_op_i plus right left = add right left
  assign_op_i minus right left = sub right left
  assign_op_i times right left = mul right left
  assign_op_i divide right left = div right left
  assign_op_i and right left = bit_and right left
  assign_op_i or right left = bit_or right left
  assign_op_i xor right left = bit_xor right left
