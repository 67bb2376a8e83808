-- ===== src/Lib.antt =====
-- Verification of the uud game server (server/src), a server for a trading card game, and of the
-- part of the card library (engine/include/cle) that its rules engine uses.
--
-- The parts and how they interact. A game moves through the phases of a turn (Turn); in most
-- phases it asks the players in turn order for an action (Priority), which arrives through a
-- bounded queue (Actions). A spell is a card with a cost (Card, Mana.Cost); it is paid from a
-- player's pool (Mana.Pool, Mana.Afford, Mana.Payment), goes to the stack (Stack) and from there
-- to a zone (Zones). A card on the battlefield is a permanent (Permanent); creatures attack and
-- block (Combat), and effects change permanents and replace events (Effects). After each action the
-- state-based actions (StateBased) remove players who have lost (Player) and creatures that die.
-- Filters say what may be chosen as a target (Targets). What happens is logged and sent to
-- subscribers (Events). Players find each other in a queue (Matchmaking), bring decks that are
-- checked (Decks) and play the games of a match (Match), each with a limited time (Clock).
--
-- Which file models which code, with the operations under the names of the code in snake case:
--   Turn                 server/src/engine/turn_machine.{hpp,cpp}
--   Priority             server/src/engine/priority_system.{hpp,cpp}
--   Actions              server/src/engine/action_queue.{hpp,cpp}
--   Game, Game.Tapping, Paying, Casting, Abilities, Sideboard, Process
--                        server/src/engine/game.{hpp,cpp}, server/src/engine/win_condition.{hpp,cpp}
--   Stack                server/src/engine/the_stack.{hpp,cpp}
--   Card                 engine/include/cle/core
--   Mana.Color, Cost     engine/include/cle/mana
--   Mana.Pool, Afford, Payment
--                        server/src/engine/mana_pool.{hpp,cpp}
--   Player               server/src/engine/player.{hpp,cpp}
--   Permanent            server/src/engine/permanent.{hpp,cpp}, and the annihilation of counters in
--                        server/src/engine/state_based_actions.cpp
--   StateBased           server/src/engine/state_based_actions.{hpp,cpp} and its loop in game.cpp
--   Targets              server/src/engine/target_filter.{hpp,cpp}
--   Decks                server/src/engine/deck_validator.{hpp,cpp}
--   Zones                server/src/engine/zone_manager.{hpp,cpp}
--   Combat, Combat.Rules server/src/engine/combat_manager.{hpp,cpp}
--   Effects              server/src/engine/continuous_effect.{hpp,cpp},
--                        server/src/engine/replacement_effect.{hpp,cpp}
--   Events               server/src/engine/event_broadcaster.{hpp,cpp}
--   Match                server/src/engine/match.{hpp,cpp}
--   Clock                server/src/engine/game_clock.{hpp,cpp}
--   Matchmaking          server/src/matchmaking/queue.{hpp,cpp}
-- The children of these modules hold the proofs and are named for what they prove; Tests modules
-- hold runs on concrete inputs. Base has the shared lists, vectors, maps and integers.
--
-- How the state corresponds. A class is a record of its members, and a method that changes it
-- takes the record and returns the new one, with the method's result beside it. A vector or a
-- deque is a list in its order, an unordered map an association list whose order no theorem uses,
-- a shared pointer to a card the card, and an iterator loop a recursion on the list. An int is an
-- integer without overflow, except where the comments of a file say otherwise; 64-bit counters
-- wrap. A method is one step, except where a file says otherwise. The shuffle, the time of a
-- call, the event that is logged and which weak pointers are alive are arguments.
--
-- Bounds and fuel. Mana.Cost.parse_tokens runs on fuel, the length of the input, and every round
-- takes at least one character. The searches of Mana.Afford go over all masks of the symbols, as
-- the code does. The loop of state-based actions runs on fuel; more than the measure of
-- StateBased.Measure is enough. Game.Abilities.strip_taps cuts "{T}" out of a text on fuel, the
-- length of the text, of which every round takes three bytes. All other recursions are on a list or
-- a number of the state. The sizes 64 (pending actions), 10000 (logged events) and 10000 (waiting
-- players) are the code's.
--
-- Not modelled: the loop of a game over turns and phases, its priority rounds, the resolving of the
-- entries of its stack, its prompts and snapshots (server/src/engine/game.cpp), what card scripts may
-- call (game_context_impl.cpp) and the game manager, which are left for later; Lua bindings, card
-- scripts, gRPC services, storage and authentication, which only pass data to third-party libraries;
-- and the client. The effects of card scripts and the triggers that they answer are parameters of
-- Game.Tapping, Casting, Abilities and Process; a script that throws is the effect up to there.
pub mod Base
pub mod Turn
pub mod Priority
pub mod Stack
pub mod Mana
pub mod Card
pub mod Permanent
pub mod Zones
pub mod Combat
pub mod Matchmaking
pub mod Match
pub mod Events
pub mod Actions
pub mod Clock
pub mod Effects
pub mod Player
pub mod Decks
pub mod Targets
pub mod StateBased
pub mod Game
