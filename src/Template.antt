-- ===== src/Template.antt =====
-- template/: the language of conditions and of the slots in host strings.
pub mod Syntax
pub mod Kinds
pub mod Lexer
pub mod Parser
pub mod Value
pub mod Eval
pub mod Slots
pub mod Substitute
pub mod Static
pub mod Examples
