-- ===== src/Contract/Syntax.antt =====
-- src/lang/base/Syntax.ml: literals, patterns, statements and components. Locations and other annotations
-- are left out, so that an identifier is its name.
use Prim.Native.String.{String}
use scilla.Base.{ℕ, Bool, List, [], ◌∷◌, Option}

-- What the evaluator of statements never looks into: the literals that are no string, no Uint128, no
-- message and no value of an algebraic type (other integers, block numbers, byte strings, maps and
-- closures), types, expressions, and the store. A map among the literals is a reference to a mutable
-- table: a field that is loaded is the field's own table, and an update of the map changes it in place.
-- The store has the contents of all tables, and the fields that the module StateService keeps.
pub record Kinds : Type 1 where
  pub Other : Type 0
  pub Typ : Type 0
  pub Expr : Type 0
  pub Store : Type 0

-- type pattern
mutual
  pub data Pattern : Type 0 where
    wildcard : Pattern
    binder : String → Pattern
    constructor : String → Patterns → Pattern

  pub data Patterns : Type 0 where
    no_pattern : Patterns
    pattern_of : Pattern → Patterns → Patterns

pub data ComponentType : Type 0 where
  comp_trans : ComponentType
  comp_proc : ComponentType

module _ (k : Kinds) where
  open k use {Other, Typ, Expr}

  -- type literal
  mutual
    pub data Literal : Type 0 where
      string_lit : String → Literal
      uint128_lit : ℕ → Literal
      msg : Entries → Literal
      adt_value : String → List Typ → Literals → Literal
      other : Other → Literal

    pub data Literals : Type 0 where
      no_literal : Literals
      literal : Literal → Literals → Literals

    pub data Entries : Type 0 where
      no_entry : Entries
      entry : String → Literal → Entries → Entries

  abbrev pub Env : Type 0
  Env = List (String × Literal)

  -- type stmt; the clauses of a match and a sequence of statements are data types of their own.
  infixr 67 ◌⨾◌
  mutual
    pub data Stmt : Type 0 where
      load : String → String → Stmt
      store : String → String → Stmt
      bind : String → Expr → Stmt
      map_update : String → List String → Option String → Stmt
      map_get : String → String → List String → Bool → Stmt
      match_stmt : String → Clauses → Stmt
      read_from_bc : String → String → Stmt
      accept_payment : Stmt
      send_msgs : String → Stmt
      create_evnt : String → Stmt
      call_proc : String → List String → Stmt
      throw : Option String → Stmt

    pub data Block : Type 0 where
      end : Block
      ◌⨾◌ : Stmt → Block → Block

    pub data Clauses : Type 0 where
      no_clause : Clauses
      clause : Pattern → Block → Clauses → Clauses

  -- type stmt_eval_context
  pub data StmtContext : Type 0 where
    g_load : Literal → StmtContext
    g_store : Literal → Literal → StmtContext
    g_bind : StmtContext
    g_map_update : ℕ → Option Literal → StmtContext
    g_map_get : ℕ → Option Literal → StmtContext
    g_match_stmt : ℕ → StmtContext
    g_read_from_bc : StmtContext
    g_accept_payment : StmtContext
    g_send_msgs : List Literal → StmtContext
    g_create_evnt : Literal → StmtContext
    g_call_proc : StmtContext

  pub record Component : Type 0 where
    pub comp_type : ComponentType
    pub comp_name : String
    pub comp_params : List (String × Typ)
    pub comp_body : Block

module _ {k : Kinds} where
  abbrev pub entries_list : Entries k → List (String × Literal k)
  entries_list no_entry = []
  entries_list (entry n l es) = (n, l) ∷ entries_list es
