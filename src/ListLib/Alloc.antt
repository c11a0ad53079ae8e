-- ===== src/ListLib/Alloc.antt =====
-- `nodeAllocator` takes the first free node, and cleans its links.
use listlib_and_system_calls.Common.{ℕ, ◌<◌, ◌≡◌, none, some}
use listlib_and_system_calls.ListLib.Pool.{Pool, max_nodes, update}
use listlib_and_system_calls.ListLib.Steps.{steps}
use listlib_and_system_calls.ListLib.Adders.{node_allocator}

-- The pools when node `i` has been taken.
abbrev pub taken : Pool → ℕ → Pool
taken p i = record p {
  nodes =
      update p.nodes i (record { item = (p.nodes i).item; next = none; prev = none; link = none });
  free_node_head = (p.nodes i).link;
}

pub node_allocator-some :
    (p : Pool) (i : ℕ)
    → i < max_nodes
    → p.free_node_head ≡ some i
    → node_allocator p ≡ some (some i, taken p i)
unfolding node_allocator
node_allocator-some p i small e = simp (e, steps, small)

pub node_allocator-none : (p : Pool) → p.free_node_head ≡ none → node_allocator p ≡ some (none, p)
unfolding node_allocator
node_allocator-none p e = rw e
