-- ===== src/Contract.antt =====
-- src/lang/eval/Eval.ml, EvalUtil.ml and PatternMatching.ml: the evaluator of a contract's statements, which
-- turns an incoming message into a new balance, outgoing messages and events.
pub mod Syntax
pub mod Exec
pub mod Lists
pub mod Configuration
pub mod Statements
pub mod Evaluator
pub mod Messages
pub mod Rules
pub mod Entries
pub mod Validation
pub mod Progress
pub mod Operations
pub mod Steps
pub mod Handled
pub mod Theorems
pub mod Selection
pub mod Payments
pub mod Fuel
pub mod Yields
pub mod Scopes
pub mod Parameters
pub mod Runs
