-- ===== src/Value.antt =====
-- checker/src/expression.rs, abstract_value.rs and path.rs: expressions, abstract values, and the
-- paths that stand for places in memory. The three refer to each other. The cached domain elements of
-- an abstract value and the hash code of a path are left out: they are computed from the rest.
pub mod Tops
pub mod Kinds
pub mod InferType
pub mod Equality
pub mod Codes
pub mod Operands
pub mod Locals
use Prim.Native.String.{String}
use hepha.Prelude.{ℕ, Bool, Option}
use hepha.ExpressionType.{ExpressionType}
use hepha.Constant.{ConstantDomain, Format}
use hepha.Tag.{Tag}

-- The known names that may stand in an expression, by the kind of expression. A name for each floating
-- point format is one constructor here.
pub data BinaryIntrinsic : Type 0 where
  copysign maxnum minnum pow powi : Format → BinaryIntrinsic
  fadd_algebraic fadd_fast fdiv_algebraic fdiv_fast fmul_algebraic fmul_fast : BinaryIntrinsic
  frem_algebraic frem_fast fsub_algebraic fsub_fast : BinaryIntrinsic

pub data BitVectorIntrinsic : Type 0 where
  bitreverse bswap ctlz ctlz_nonzero ctpop cttz cttz_nonzero : BitVectorIntrinsic

pub data FloatIntrinsic : Type 0 where
  ceil cos floor exp2 exp fabs log10 log2 log nearbyint rint round reven sin sqrt trunc :
      Format → FloatIntrinsic

-- The lengths of bit vectors.
pub data BitLength : Type 0 where
  bits_8 bits_16 bits_32 bits_64 bits_128 : BitLength

pub data LayoutSource : Type 0 where
  alloc de_alloc re_alloc : LayoutSource

-- The arguments follow the order of the fields of the source. The paths to a heap block and to an
-- offset have names that differ from those of the expressions.
mutual
  pub data Expression : Type 0 where
    top bottom : Expression
    add : AbstractValue → AbstractValue → Expression
    add_overflows : AbstractValue → AbstractValue → ExpressionType → Expression
    and : AbstractValue → AbstractValue → Expression
    bit_and : AbstractValue → AbstractValue → Expression
    bit_not : AbstractValue → ExpressionType → Expression
    bit_or : AbstractValue → AbstractValue → Expression
    bit_xor : AbstractValue → AbstractValue → Expression
    cast : AbstractValue → ExpressionType → Expression
    compile_time_constant : ConstantDomain → Expression
    conditional_expression : AbstractValue → AbstractValue → AbstractValue → Expression
    div : AbstractValue → AbstractValue → Expression
    equals : AbstractValue → AbstractValue → Expression
    greater_or_equal : AbstractValue → AbstractValue → Expression
    greater_than : AbstractValue → AbstractValue → Expression
    heap_block : ℕ → Bool → Expression
    heap_block_layout : AbstractValue → AbstractValue → LayoutSource → Expression
    initial_parameter_value : PathEnum → ExpressionType → Expression
    intrinsic_binary : AbstractValue → AbstractValue → BinaryIntrinsic → Expression
    intrinsic_bit_vector_unary : AbstractValue → BitLength → BitVectorIntrinsic → Expression
    intrinsic_floating_point_unary : AbstractValue → FloatIntrinsic → Expression
    join : AbstractValue → AbstractValue → Expression
    less_or_equal : AbstractValue → AbstractValue → Expression
    less_than : AbstractValue → AbstractValue → Expression
    logical_not : AbstractValue → Expression
    memcmp : AbstractValue → AbstractValue → AbstractValue → Expression
    mul : AbstractValue → AbstractValue → Expression
    mul_overflows : AbstractValue → AbstractValue → ExpressionType → Expression
    ne : AbstractValue → AbstractValue → Expression
    neg : AbstractValue → Expression
    or : AbstractValue → AbstractValue → Expression
    offset : AbstractValue → AbstractValue → Expression
    reference : PathEnum → Expression
    rem : AbstractValue → AbstractValue → Expression
    shl : AbstractValue → AbstractValue → Expression
    shl_overflows : AbstractValue → AbstractValue → ExpressionType → Expression
    shr : AbstractValue → AbstractValue → Expression
    shr_overflows : AbstractValue → AbstractValue → ExpressionType → Expression
    sub : AbstractValue → AbstractValue → Expression
    sub_overflows : AbstractValue → AbstractValue → ExpressionType → Expression
    switch : AbstractValue → Cases → AbstractValue → Expression
    tagged_expression : AbstractValue → Tag → Expression
    transmute : AbstractValue → ExpressionType → Expression
    uninterpreted_call : AbstractValue → Values → ExpressionType → PathEnum → Expression
    unknown_model_field : PathEnum → AbstractValue → Expression
    unknown_tag_check : AbstractValue → Tag → Bool → Expression
    unknown_tag_field : PathEnum → Expression
    variable : PathEnum → ExpressionType → Expression
    widened_join : PathEnum → AbstractValue → Expression

  -- An expression and its size.
  pub data AbstractValue : Type 0 where
    value : Expression → ℕ → AbstractValue

  -- `Vec<(Rc<AbstractValue>, Rc<AbstractValue>)>`
  pub data Cases : Type 0 where
    no_cases : Cases
    case_of : AbstractValue → AbstractValue → Cases → Cases

  -- `Vec<Rc<AbstractValue>>`
  pub data Values : Type 0 where
    no_values : Values
    value_and : AbstractValue → Values → Values

  -- `PathEnum`
  pub data PathEnum : Type 0 where
    computed : AbstractValue → PathEnum
    heap_block_path : AbstractValue → PathEnum
    local_variable : ℕ → ℕ → PathEnum
    offset_path : AbstractValue → PathEnum
    parameter : ℕ → PathEnum
    result : PathEnum
    static_variable : Option ℕ → String → ExpressionType → PathEnum
    phantom_data : PathEnum
    promoted_constant : ℕ → PathEnum
    qualified_path : ℕ → PathEnum → PathSelector → PathEnum

  pub data PathSelector : Type 0 where
    layout deref discriminant function : PathSelector
    field : ℕ → PathSelector
    union_field : ℕ → ℕ → PathSelector
    index : AbstractValue → PathSelector
    slice : AbstractValue → PathSelector
    constant_index : ℕ → ℕ → Bool → PathSelector
    constant_slice : ℕ → ℕ → Bool → PathSelector
    downcast : String → ℕ → AbstractValue → PathSelector
    model_field : String → PathSelector
    tag_field : PathSelector
