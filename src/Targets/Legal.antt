-- ===== src/Targets/Legal.antt =====
-- Which targets a filter lets a player choose (server/src/engine/target_filter.cpp).
use uud.Card.{Card}
use uud.Player.{Player}
