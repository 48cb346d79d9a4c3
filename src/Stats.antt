-- ===== src/Stats.antt =====
-- `Counter` of rmqtt/src/broker/stats.rs: a current number and the largest one it had. The numbers of
-- the source are 64-bit integers; these are unbounded, and the same up to 2 ^ 63.
pub mod Merge
mod Tests
use rmqtt.Common.{ℤ, pos, ◌+ℤ◌, ◌-ℤ◌, min_ℤ, max_ℤ}

pub data StatsMergeMode : Type 0 where
  no_merge sum average maximum minimum : StatsMergeMode

pub record Counter : Type 0 where
  pub current : ℤ
  pub max : ℤ
  pub mode : StatsMergeMode

abbrev pub new_with : ℤ → ℤ → StatsMergeMode → Counter
new_with c max m = record { current = c; max = max; mode = m }

abbrev pub new : Counter
new = new_with (pos 0) (pos 0) no_merge

-- `fetch_max` of the largest number.
abbrev pub max_max : ℤ → Counter → Counter
max_max m c = record c { max = max_ℤ c.max m }

abbrev pub max_min : ℤ → Counter → Counter
max_min m c = record c { max = min_ℤ c.max m }

abbrev pub count_min : ℤ → Counter → Counter
count_min n c = record c { current = min_ℤ c.current n }

abbrev pub count_max : ℤ → Counter → Counter
count_max n c = record c { current = max_ℤ c.current n }

abbrev pub current_set : ℤ → Counter → Counter
current_set n c = record c { current = n }

abbrev pub current_incs : ℤ → Counter → Counter
current_incs n c = record c { current = c.current +ℤ n }

abbrev pub current_inc : Counter → Counter
current_inc c = current_incs (pos 1) c

abbrev pub incs : ℤ → Counter → Counter
incs n c = max_max (c.current +ℤ n) (current_incs n c)

abbrev pub inc : Counter → Counter
inc c = incs (pos 1) c

abbrev pub sets : ℤ → Counter → Counter
sets n c = max_max n (current_set n c)

abbrev pub decs : ℤ → Counter → Counter
decs n c = record c { current = c.current -ℤ n }

abbrev pub dec : Counter → Counter
dec c = decs (pos 1) c

-- The mode is not copied.
abbrev pub set : Counter → Counter → Counter
set other c = record c { current = other.current; max = other.max }

abbrev pub add : Counter → Counter → Counter
add other c = record c { current = c.current +ℤ other.current; max = c.max +ℤ other.max }

abbrev stats_merge : StatsMergeMode → Counter → Counter → Counter
stats_merge no_merge c o = c
stats_merge sum c o = add o c
stats_merge maximum c o = max_max o.max (count_max o.current c)
stats_merge minimum c o = max_min o.max (count_min o.current c)
stats_merge average c o = c

unfoldable pub merge : Counter → Counter → Counter
merge other c = stats_merge c.mode c other
