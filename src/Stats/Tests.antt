-- ===== src/Stats/Tests.antt =====
-- Counters of rmqtt/src/broker/stats.rs on small numbers.
use rmqtt.Common.{ℕ, List, [], ◌∷◌, pos}
use rmqtt.Stats.{Counter, new_with, no_merge}

abbrev nodes : List (ℕ × Counter)
nodes = (1, new_with (pos 4) (pos 6) no_merge) ∷ (2, new_with (pos 3) (pos 8) no_merge) ∷ []
