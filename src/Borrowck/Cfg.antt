-- ===== src/Borrowck/Cfg.antt =====
-- The control flow graph of src/borrowck/cfg.rs; its region graph is in Graph.
pub mod Places
use pocket_rust.Prelude.{
  ℕ, Bool, true, false, not, ◌&&◌, ◌||◌, Option, none, some, List, [], ◌∷◌, String, string_eq,
  ◌+++◌, decimal, ltb, ◌==◌, if◌then◌else◌, length, get_elem?, for_each,
}
use pocket_rust.Span.{Span}
use pocket_rust.Typeck.Types.{RType, RTypes}
use pocket_rust.Borrowck.Graph.{RegionId, RegionGraph}

abbrev pub BlockId : Type 0
BlockId = ℕ

abbrev pub LocalId : Type 0
LocalId = ℕ

-- `NodeId` of src/ast.rs
abbrev pub NodeId : Type 0
NodeId = ℕ

pub data Projection : Type 0 where
  field : String → Projection
  tuple_index : ℕ → Projection
  deref : Projection

pub record Place : Type 0 where
  pub root : LocalId
  pub projections : List Projection

-- `==` on `Projection` and on `Place`, as derived.
unfoldable pub projection_eq : Projection → Projection → Bool
projection_eq (field f) (field g) = string_eq f g
projection_eq (tuple_index i) (tuple_index j) = i == j
projection_eq deref deref = true
projection_eq _ _ = false

unfoldable pub projections_eq : List Projection → List Projection → Bool
projections_eq [] [] = true
projections_eq (p ∷ ps) (q ∷ qs) = projection_eq p q && projections_eq ps qs
projections_eq _ _ = false

unfoldable pub place_eq : Place → Place → Bool
place_eq p q = (p.root == q.root) && projections_eq p.projections q.projections

-- The loop of `is_prefix_of`, which the length test keeps in bounds.
unfoldable pub same_start : List Projection → List Projection → Bool
same_start [] qs = true
same_start (p ∷ ps) [] = false
same_start (p ∷ ps) (q ∷ qs) =
    let rest = same_start ps qs in if not (projection_eq p q) then false else rest

unfoldable pub is_prefix_of : Place → Place → Bool
is_prefix_of self other =
    if not (self.root == other.root)
    then false
    else if ltb (length other.projections) (length self.projections)
    then false
    else same_start self.projections other.projections

unfoldable pub overlaps : Place → Place → Bool
overlaps self other = is_prefix_of self other || is_prefix_of other self

pub data OperandKind : Type 0 where
  move : Place → OperandKind
  copy : Place → OperandKind
  const_int : ℕ → OperandKind
  const_bool : Bool → OperandKind
  const_unit : OperandKind
  const_str : String → OperandKind

pub record Operand : Type 0 where
  pub kind : OperandKind
  pub span : Span
  pub node_id : Option NodeId

pub data VariantFields : Type 0 where
  unit : VariantFields
  tuple : List Operand → VariantFields
  struct : List (String × Operand) → VariantFields

pub data CallTarget : Type 0 where
  path : List String → CallTarget
  method_resolution : NodeId → CallTarget

pub data Rvalue : Type 0 where
  use_operand : Operand → Rvalue
  borrow : (mutable : Bool) (place : Place) (region : RegionId) → Rvalue
  cast : (source : Operand) (target_ty : RType) → Rvalue
  call : (callee : CallTarget) (args : List Operand) (call_node_id : NodeId) → Rvalue
  struct_lit :
      (type_path : List String) (type_args : RTypes) (fields : List (String × Operand)) → Rvalue
  tuple_lit : List Operand → Rvalue
  variant :
      (enum_path : List String) (type_args : RTypes) (disc : ℕ) (fields : VariantFields) → Rvalue
  builtin : (name : String) (args : List Operand) → Rvalue
  discriminant : Place → Rvalue

pub data CfgStmtKind : Type 0 where
  assign : (place : Place) (rvalue : Rvalue) → CfgStmtKind
  drop : Place → CfgStmtKind
  storage_live : LocalId → CfgStmtKind
  storage_dead : LocalId → CfgStmtKind
  uninit : LocalId → CfgStmtKind

pub record CfgStmt : Type 0 where
  pub kind : CfgStmtKind
  pub span : Span

pub data Terminator : Type 0 where
  goto : BlockId → Terminator
  if_branch : (cond : Operand) (then_block : BlockId) (else_block : BlockId) → Terminator
  switch_int : (operand : Operand) (targets : List (ℕ × BlockId)) (otherwise : BlockId) → Terminator
  return : Terminator
  unreachable : Terminator

pub record BasicBlock : Type 0 where
  pub stmts : List CfgStmt
  pub terminator : Terminator

pub record LocalDecl : Type 0 where
  pub name : Option String
  pub ty : RType
  pub span : Span
  pub mutable : Bool
  pub is_temp : Bool

pub record Cfg : Type 0 where
  pub blocks : List BasicBlock
  pub locals : List LocalDecl
  pub entry : BlockId
  pub region_count : ℕ
  pub region_graph : RegionGraph
  pub return_local : Option LocalId
  pub param_count : ℕ

-- The rounds of `render`.
abbrev render_projection : String → Projection → String
render_projection out (field f) = out +++ "." +++ f
render_projection out (tuple_index n) = out +++ "." +++ decimal n
render_projection out deref = "(*" +++ out +++ ")"

-- A root without a declaration, where the program stops, renders as a temporary.
abbrev root_name : Option LocalDecl → String
root_name none = "<temp>"
root_name (some decl) = elim decl.name [ some n ↦ n | none ↦ "<temp>" ]

unfoldable pub render : Place → List LocalDecl → String
render self locals =
    for_each render_projection (root_name (get_elem? locals self.root)) self.projections
