-- ===== src/Mana.antt =====
-- The mana system: mana_color.hpp and hybrid_cost.hpp (engine/include/cle/mana), with children for
-- the parsed cost and for a player's pool.
pub mod Color
pub mod Cost
pub mod Pool
pub mod Afford
pub mod Payment
