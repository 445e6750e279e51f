-- ===== src/Mir.antt =====
-- The middle representation: include/moksha/MIR/MIRInst.h, MIRValue.h, MIRBlock.h, MIRFunction.h,
-- MIRGlobal.h and MIRModule.h of that folder, and what lib/middle/mir/MIRInst.cpp and MIRBlock.cpp
-- say of them. A pointer to a value or a block is its address; types, names of values and places in
-- the source are left out, since the passes that are modelled do not read them.
pub mod Operands
pub mod Blocks
pub mod Addresses
use moksha.Base.{ℕ, Bool, Option, List, Bytes}

pub data BinaryOp : Type 0 where
  add sub mul div mod_op pow f_add f_sub f_mul f_div and_op or_op xor shl shr : BinaryOp

pub data CastOp : Type 0 where
  bit_cast int_to_float float_to_int z_ext s_ext trunc ptr_to_int int_to_ptr any_cast : CastOp
  array_to_slice slice_to_array upcast : CastOp

pub data ArcOp : Type 0 where
  retain release : ArcOp

pub data IntPredicate : Type 0 where
  eq ne lt le gt ge ult ule ugt uge : IntPredicate

-- The instruction classes with their operands and the blocks that they lead to.
pub data Inst : Type 0 where
  -- terminators: a branch with its target, a conditional one with the condition, and so on
  br : ℕ → Inst
  cond_br : ℕ → ℕ → ℕ → Inst
  switch : ℕ → ℕ → List (ℕ × ℕ) → Inst
  ret : Option ℕ → Inst
  unreachable : Inst
  -- memory and aggregates
  alloca : Inst
  load : ℕ → Bool → Inst
  store : ℕ → ℕ → Inst
  get_element_ptr : ℕ → List ℕ → Inst
  insert_value : ℕ → ℕ → Inst
  extract_value : ℕ → Inst
  arc : ArcOp → ℕ → Inst
  store_weak : ℕ → ℕ → Inst
  load_weak : ℕ → Inst
  -- arithmetic, casts and comparisons
  binary : BinaryOp → ℕ → ℕ → Inst
  cast : CastOp → ℕ → Inst
  compare_int : IntPredicate → ℕ → ℕ → Inst
  compare_float : ℕ → ℕ → Inst
  -- each value with the block that it comes from
  phi : List (ℕ × ℕ) → Inst
  call : ℕ → List ℕ → Inst
  -- with the block behind the call, and the one for an exception
  invoke : ℕ → List ℕ → ℕ → Option ℕ → Inst
  landing_pad : Inst
  resume : ℕ → Inst
  throw : ℕ → Option ℕ → Inst
  inline_asm : List ℕ → Inst
  make_closure : ℕ → List ℕ → Inst
  make_shared : ℕ → Inst
  spawn : ℕ → Inst
  await : ℕ → Inst
  atomic_load : ℕ → Inst
  atomic_store : ℕ → ℕ → Inst
  -- the pointer and the value
  atomic_rmw : ℕ → ℕ → Inst
  atomic_cmp_xchg : ℕ → ℕ → ℕ → Inst
  fence : Inst

-- An instruction as a value.
pub record Instruction : Type 0 where
  pub id : ℕ
  pub inst : Inst

pub record Block : Type 0 where
  pub id : ℕ
  pub instructions : List Instruction
  pub predecessors : List ℕ
  pub successors : List ℕ

-- A function without blocks is a declaration. The first block is the entry.
pub record Function : Type 0 where
  pub name : Bytes
  pub blocks : List Block

pub data Linkage : Type 0 where
  internal external weak link_once : Linkage

pub record Global : Type 0 where
  pub id : ℕ
  pub name : Bytes
  pub linkage : Linkage
  pub is_used : Bool
  pub initializer : Option ℕ

-- The constants that refer to other values; the others are `scalar`.
pub data Constant : Type 0 where
  scalar : Constant
  array slice struct : List ℕ → Constant
  map : List (ℕ × ℕ) → Constant
  union : ℕ → Constant
  constant_cast constant_upcast : ℕ → Constant

pub record MirModule : Type 0 where
  pub functions : List Function
  pub globals : List Global
  pub constants : List (ℕ × Constant)
