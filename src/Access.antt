-- ===== src/Access.antt =====
-- Who may do what: the rights of kepler-daemon/src/permissions.rs, the hardening levels of
-- hardening.rs, the tokens of token_store.rs, the authentication of auth.rs and the access control
-- lists of acl.rs. A `HashSet` of rights is a list, read through `contains`.
pub mod Rights
pub mod Tokens
pub mod Auth
pub mod Acl
