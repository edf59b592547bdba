-- ===== src/Sel/Syntax.antt =====
-- The nodes of src/runtime/expressions/SelNodes.hpp and the tokens of
-- src/runtime/expressions/Sel.cpp. A node has the members that its kind uses; an operator and a
-- keyword is named by a constructor in place of its text. A token has no position: positions only
-- go into messages.
use sapo_engine.Prelude.{String, Bool, List}
use sapo_engine.Prelude.Int.{ℤ}
use sapo_engine.Json.{Json}

pub data UnaryOp : Type 0 where
  negation minus plus : UnaryOp

pub data BinaryOp : Type 0 where
  or_op and_op : BinaryOp
  eq_op ne_op : BinaryOp
  lt_op le_op gt_op ge_op in_op contains_op match_op : BinaryOp
  add_op sub_op : BinaryOp
  mul_op div_op mod_op : BinaryOp

-- `literal`, and so on by `NodeKind`; an index is static or computed. The flag of a variable is
-- `explicit_dollar`, that of an access `optional`.
mutual
  pub data Expr : Type 0 where
    literal : Json → Expr
    variable : Bool → String → Expr
    member : Bool → Expr → String → Expr
    static_index : Expr → ℤ → Expr
    index : Expr → Expr → Expr
    call : String → Exprs → Expr
    method_call : Bool → Expr → String → Exprs → Expr
    unary : UnaryOp → Expr → Expr
    binary : BinaryOp → Expr → Expr → Expr
    ternary : Expr → Expr → Expr → Expr
    coalesce : Expr → Expr → Expr
    array_literal : Exprs → Expr
    object_literal : Entries → Expr

  pub data Exprs : Type 0 where
    no_exprs : Exprs
    expr : Expr → Exprs → Exprs

  pub data Entries : Type 0 where
    no_entries : Entries
    entry : String → Expr → Entries → Entries

pub data Keyword : Type 0 where
  and_word or_word not_word in_word contains_word true_word false_word null_word : Keyword
  -- `=~`
  match_word : Keyword

-- The kinds of `TokKind` less `End`, which is the end of the list of tokens.
pub data Token : Type 0 where
  number : String → Json → Token
  text : String → Token
  ident : String → Token
  keyword : Keyword → Token
  dollar dot opt_dot lparen rparen lbracket rbracket lbrace rbrace : Token
  comma colon question coalesce_mark plus_sign minus_sign star slash percent : Token
  eq_mark ne_mark lt_mark le_mark gt_mark ge_mark and_mark or_mark not_mark : Token

abbrev pub Tokens : Type 0
Tokens = List Token
