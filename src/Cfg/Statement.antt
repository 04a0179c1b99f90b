-- ===== src/Cfg/Statement.antt =====
-- The statements that cfg-builder.js walks: flowFromAst and callName. One data type stands for the
-- syntax tree and for the flow that is built from it; in a tree no placeholder has a replacement.
use Prim.Native.String.{String}
use veilforge.Base.{ℕ, Option, none, some, List, [], ◌∷◌}

-- A node of the syntax tree: its id, which the compiler makes an integer, and its place.
pub record Node : Type 0 where
  pub ast_id : ℕ
  pub src : List ℕ

-- Statements without statements in them that a graph shows. A call is an expression statement whose
-- expression is a call, with the name that callName finds and the id of the first argument.
pub data Leaf : Type 0 where
  try_statement return_statement revert_statement break_statement continue_statement : Leaf
  emit_statement other_statement : Leaf
  call_statement : Option String → Option ℕ → Leaf

-- `absent` is null. An if has a condition, a true and a false body; a for has an initialisation, a
-- condition, a loop expression and a body; a placeholder has a replacement.
mutual
  pub data Statement : Type 0 where
    absent : Statement
    block unchecked_block : Node → Statements → Statement
    if_statement : Node → Option Node → Statement → Statement → Statement
    for_statement : Node → Option Node → Option Node → Option Node → Statement → Statement
    while_statement do_while_statement : Node → Option Node → Statement → Statement
    placeholder_statement : Node → Statement → Statement
    leaf : Node → Leaf → Statement

  pub data Statements : Type 0 where
    done : Statements
    next : Statement → Statements → Statements

abbrev pub node_of : Statement → Option Node
node_of absent = none
node_of (block n ss) = some n
node_of (unchecked_block n ss) = some n
node_of (if_statement n c t f) = some n
node_of (for_statement n i c l b) = some n
node_of (while_statement n c b) = some n
node_of (do_while_statement n c b) = some n
node_of (placeholder_statement n r) = some n
node_of (leaf n l) = some n

-- The flow of a tree, in which placeholders stand for the given replacement.
unfoldable mutual
  pub flow_from_ast : Statement → Statement → Statement
  flow_from_ast replacement absent = absent
  flow_from_ast replacement (block n ss) = block n (flows_from_ast replacement ss)
  flow_from_ast replacement (unchecked_block n ss) =
      unchecked_block n (flows_from_ast replacement ss)
  flow_from_ast replacement (if_statement n c t f) =
      if_statement n c (flow_from_ast replacement t) (flow_from_ast replacement f)
  flow_from_ast replacement (for_statement n i c l b) =
      for_statement n i c l (flow_from_ast replacement b)
  flow_from_ast replacement (while_statement n c b) =
      while_statement n c (flow_from_ast replacement b)
  flow_from_ast replacement (do_while_statement n c b) =
      do_while_statement n c (flow_from_ast replacement b)
  flow_from_ast replacement (placeholder_statement n r) = placeholder_statement n replacement
  flow_from_ast replacement (leaf n l) = leaf n l

  pub flows_from_ast : Statement → Statements → Statements
  flows_from_ast replacement done = done
  flows_from_ast replacement (next s ss) =
      next (flow_from_ast replacement s) (flows_from_ast replacement ss)

-- A modifier of a function: the id of its declaration, and its body where it could be found.
pub record Modifier : Type 0 where
  pub declared : Option ℕ
  pub body : Statement

-- `expandedFlow`, from the last modifier to the first: each takes what is inside it as the
-- replacement of its placeholders; one whose body is not found is passed over. The diagnostics are
-- left out.
unfoldable pub wrap : Modifier → Statement → Statement
unfolding flow_from_ast
wrap m flow = elim (node_of m.body) [ none ↦ flow | some n ↦ flow_from_ast flow m.body ]

unfoldable pub expanded_flow : List Modifier → Statement → Statement
unfolding flow_from_ast wrap
expanded_flow [] body = flow_from_ast absent body
expanded_flow (m ∷ ms) body = wrap m (expanded_flow ms body)

unfoldable pub modifier_order : List Modifier → List ℕ
modifier_order [] = []
modifier_order (m ∷ ms) =
    let rest = modifier_order ms in
    elim (node_of m.body) [
      | none ↦ rest
      | some n ↦ elim m.declared [ none ↦ rest | some id ↦ id ∷ rest ]
    ]
