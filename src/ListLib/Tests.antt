-- ===== src/ListLib/Tests.antt =====
-- Runs of the library on small inputs, and its theorems at concrete pools.
use listlib_and_system_calls.Common.{
  ℕ, ◌≡◌, refl, inl, Option, none, some, List, [], ◌∷◌, arith, subst,
}
use listlib_and_system_calls.ListLib.Pool.{
  Pool, Cmd, pure, ◌>>=◌, ◌>>◌, get_node, put_node, get_list, put_list, set_item, set_next,
  set_prev, set_link, update,
}
use listlib_and_system_calls.ListLib.Adders.{
  list_append, list_prepend, list_add, list_insert, node_allocator, append_node, prepend_node,
  start_list, add_node, insert_node,
}
use listlib_and_system_calls.ListLib.Movers.{
  list_first, list_next, list_prev, list_last, list_count,
}
use listlib_and_system_calls.ListLib.Removers.{
  list_create, list_concat, init_pools, init_nodes, init_lists, take_list,
}
use listlib_and_system_calls.ListLib.Append.{appended_first, list_append-first}
use listlib_and_system_calls.ListLib.Append.Refines.{list_append-refines}
use listlib_and_system_calls.ListLib.Prepend.Refines.{list_prepend-refines}
use listlib_and_system_calls.ListLib.Concat.Calls.{list_concat-refines, list_concat-faults}
use listlib_and_system_calls.ListLib.Between.Refines.{list_add-refines, list_insert-refines}
use listlib_and_system_calls.ListLib.Cursor.{list_count_lem}
use listlib_and_system_calls.ListLib.Cursor.Walk.{all_items, all_items_lem, next_items}
use listlib_and_system_calls.ListLib.Loop.{append_then_next}
use listlib_and_system_calls.ListLib.Sample.{fresh, fresh_Holds, sample, sample_items, sample_Holds}
use listlib_and_system_calls.ListLib.Spec
use listlib_and_system_calls.ListLib.Spec.{Contents, Holds, Ensures}

-- What a run needs to see: every function of the library.
abbrev runs : Unit {0}
unfolding get_node put_node get_list put_list set_item set_next set_prev set_link update list_append
    list_prepend list_add list_insert node_allocator append_node prepend_node start_list add_node
    insert_node list_first list_next list_prev list_last list_count list_create list_concat
    init_pools init_nodes init_lists take_list
runs = tt

-- Static storage is zero.
abbrev zeroed : Pool
zeroed = record {
  nodes = λ i. record { item = 0; next = some 0; prev = some 0; link = some 0 };
  lists = λ i. record {
    head = some 0;
    tail = some 0;
    curr = some 0;
    count = 0;
    before = 0;
    after = 0;
    link = some 0;
  };
  free_node_head = some 0;
  free_list_head = some 0;
  initialized = 0;
}

abbrev value : {A : Type 0} → Option (A × Pool) → Option A
value none = none
value (some (a, p)) = some a

abbrev walk : Cmd (List ℕ)
walk = do
  l ← list_create
  list_append l 7
  list_append l 8
  list_prepend l 6
  a ← list_first l
  b ← list_next l
  c ← list_next l
  pure (a ∷ b ∷ c ∷ [])

walk-eq : value (walk zeroed) ≡ some (6 ∷ 7 ∷ 8 ∷ [])
unfolding runs
walk-eq = refl

list_append-refines_example :
    Ensures
      (λ s q. (s ≡ (Spec.append sample_items 0 5).0) × Holds (Spec.append sample_items 0 5).1 q)
      (list_append (some 0) 5 (sample 1))
list_append-refines_example =
    list_append-refines (sample 1) sample_items 0 5 (sample_Holds 1 refl) (omega arith)
      (omega arith)

list_prepend-refines_example :
    Ensures
      (λ s q. (s ≡ (Spec.prepend sample_items 1 5).0) × Holds (Spec.prepend sample_items 1 5).1 q)
      (list_prepend (some 1) 5 (sample 1))
list_prepend-refines_example =
    list_prepend-refines (sample 1) sample_items 1 5 (sample_Holds 1 refl) (omega arith)
      (omega arith)

list_concat-refines_example :
    Ensures
      (λ _ q. Holds (Spec.concat sample_items 0 1) q)
      (list_concat (some 0) (some 1) (sample 1))
list_concat-refines_example =
    list_concat-refines (sample 1) sample_items 0 1 (sample_Holds 1 refl) (omega arith)
      (omega arith) (omega arith) (inl (λ e. cc))

all_items_lem_example :
    Ensures (λ ws q. (ws ≡ 7 ∷ 8 ∷ []) × Holds sample_items q) (all_items 1 (some 0) (sample 1))
all_items_lem_example =
    all_items_lem (sample 1) sample_items 0 (sample_Holds 1 refl) (omega arith) (omega arith)

-- The cursor stands on the first of two items.
list_add-refines_example :
    Ensures
      (λ s q.
        (s ≡ (Spec.insert_at sample_items 0 1 5).0) × Holds (Spec.insert_at sample_items 0 1 5).1 q)
      (list_add (some 0) 5 (sample 0))
list_add-refines_example =
    list_add-refines (sample 0) sample_items 0 0 5 (sample_Holds 0 refl) (omega arith) (omega arith)
      (omega arith) (omega arith) (refl, omega arith, refl)

-- The cursor stands on the second of two items.
list_insert-refines_example :
    Ensures
      (λ s q.
        (s ≡ (Spec.insert_at sample_items 0 1 5).0) × Holds (Spec.insert_at sample_items 0 1 5).1 q)
      (list_insert (some 0) 5 (sample 1))
list_insert-refines_example =
    list_insert-refines (sample 1) sample_items 0 0 5 (sample_Holds 1 refl) (omega arith)
      (omega arith) (omega arith) (omega arith) (refl, omega arith, refl) (λ d e. second_prev d e)
  where
    second_prev : (d : ℕ) → ((sample 1).lists 0).curr ≡ some d → ((sample 1).nodes d).prev ≡ some 0
    second_prev d e =
        let f : 1 ≡ d = ground arith in subst (λ k. ((sample 1).nodes k).prev ≡ some 0) f refl

list_count_lem_example : list_count (some 0) (sample 1) ≡ some (some 2, sample 1)
list_count_lem_example =
    list_count_lem (sample 1) sample_items (sample_Holds 1 refl) 0 (omega arith)

append_then_next_example :
    Ensures
      (λ ws q. ws ≡ 7 ∷ 7 ∷ 7 ∷ [])
      ((list_append (some 0) 7 >>= λ _. next_items 3 (some 0)) fresh)
append_then_next_example =
    append_then_next fresh (λ _. []) 0 7 3 fresh_Holds (omega arith) (omega arith) refl refl

-- The pools when the second list of the fresh ones holds 5.
abbrev half : Pool
half = appended_first fresh 1 0 5

half_Holds : Holds (Spec.append (λ _. []) 1 5).1 half
half_Holds =
    (subst
      (Ensures λ s q. (s ≡ (Spec.append (λ _. []) 1 5).0) × Holds (Spec.append (λ _. []) 1 5).1 q)
      (list_append-first fresh 1 0 5 (omega arith) (omega arith) (omega arith) refl refl)
      (list_append-refines fresh (λ _. []) 1 5 fresh_Holds (omega arith) (omega arith))).1

list_concat-faults_example : list_concat (some 0) (some 1) half ≡ none
unfolding Spec.append update
list_concat-faults_example =
    list_concat-faults half (Spec.append (λ _. []) 1 5).1 0 1 half_Holds (omega arith) (omega arith)
      refl (λ e. cc)
