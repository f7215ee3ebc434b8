-- ===== src/Promql.antt =====
-- The query language (internal/promql).
pub mod Token
pub mod Lex
pub mod Ast
pub mod Duration
pub mod Parser
pub mod Operator
pub mod Selector
pub mod Postfix
pub mod Parse
pub mod Value
pub mod Signature
pub mod Binary
pub mod Aggregate
pub mod Ranges
pub mod Histogram
pub mod Functions
pub mod Engine
pub mod Series
