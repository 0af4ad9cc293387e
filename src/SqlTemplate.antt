-- ===== src/SqlTemplate.antt =====
-- internal/sqltemplate/sqltemplate.go: parameterized SQL from a rendered template. The template engine and
-- the expression language are parameters; a parameter's value is a function of its number, so that the
-- code's memory of evaluated parameters is not needed.
pub mod Scan
pub mod Build
pub mod Layout
pub mod Opaque
pub mod Bindings
pub mod Queries
pub mod Validated
