-- ===== src/Resolver.antt =====
-- models/resolve.py and models/config_fields.py: from the configuration as it is written to the one
-- that the runtime executes.
pub mod Fields
pub mod Levels
pub mod Assemble
pub mod Nearest
pub mod Choice
pub mod Names
