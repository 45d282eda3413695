-- ===== src/Validation.antt =====
-- utils/validation.py: the rules that a configuration has to meet before it is used, and what it is
-- warned about. A rule that is broken raises an exception; the first one is the result here. Whether a
-- path is a file comes from outside.
pub mod Rules
pub mod Keep
pub mod Routing
pub mod Steps
