-- ===== src/ListLib/Sample.antt =====
-- Concrete pools of the right shape, for the tests.
use listlib_and_system_calls.Common.{
  ℕ, zero, suc, ◌+◌, ◌<◌, ◌≡◌, refl, none, some, List, [], ◌∷◌, arith, ◌==◌, if◌then◌else◌, true,
  has,
}
use listlib_and_system_calls.ListLib.Pool.{Pool, Node, ListHead, max_lists}
use listlib_and_system_calls.ListLib.Chain.{Within, Owned, items}
use listlib_and_system_calls.ListLib.Shape.{IsList}
use listlib_and_system_calls.ListLib.Create.{empty_list, IsFresh-Holds}
use listlib_and_system_calls.ListLib.Spec.{Contents, Holds}

-- Two lists, 7 8 and 9, with the cursor of the first on its second node and that of the second on
-- its only node.
abbrev pub sample_node : ℕ → Node
sample_node zero = record { item = 7; next = some 1; prev = some 0; link = none }
sample_node (suc zero) = record { item = 8; next = none; prev = some 0; link = none }
sample_node (suc (suc zero)) = record { item = 9; next = some 2; prev = some 2; link = none }
sample_node i = record {
  item = 0;
  next = none;
  prev = none;
  link = if i == 9 then none else some (i + 1);
}

abbrev pub sample_head : ℕ → ℕ → ℕ → ℕ → ListHead
sample_head a b c n = record {
  head = some a;
  tail = some b;
  curr = some c;
  count = n;
  before = 0;
  after = 0;
  link = none;
}

-- The cursor of the first list stands on node `c`.
abbrev pub sample : ℕ → Pool
sample c = record {
  nodes = sample_node;
  lists = elim [ zero ↦ sample_head 0 1 c 2 | suc l ↦ sample_head 2 2 2 1 ];
  free_node_head = some 3;
  free_list_head = none;
  initialized = 1;
}

abbrev pub sample_items : Contents
sample_items zero = 7 ∷ 8 ∷ []
sample_items (suc zero) = 9 ∷ []
sample_items (suc (suc l)) = []

abbrev pub sample_chains : ℕ → List ℕ
sample_chains zero = 0 ∷ 1 ∷ []
sample_chains (suc zero) = 2 ∷ []
sample_chains (suc (suc l)) = []

abbrev pub sample_own : ℕ → ℕ
sample_own zero = 0
sample_own (suc zero) = 0
sample_own (suc (suc zero)) = 1
sample_own i = 2

first_inner :
    (c a : ℕ)
    → has a (0 ∷ 1 ∷ []) ≡ true
    → Within (0 ∷ 1 ∷ []) (sample_node a).next × Within (0 ∷ 1 ∷ []) (sample_node a).prev
first_inner c zero m = (refl, refl)
first_inner c (suc zero) m = (tt, refl)
first_inner c (suc (suc a)) m = absurd (ground arith)

second_inner :
    (a : ℕ)
    → has a (2 ∷ []) ≡ true
    → Within (2 ∷ []) (sample_node a).next × Within (2 ∷ []) (sample_node a).prev
second_inner zero m = absurd (ground arith)
second_inner (suc zero) m = absurd (ground arith)
second_inner (suc (suc zero)) m = (refl, refl)
second_inner (suc (suc (suc a))) m = absurd (ground arith)

pub sample-IsList :
    (c : ℕ)
    → has c (0 ∷ 1 ∷ []) ≡ true
    → (l : ℕ) → l < max_lists
    → IsList sample_node sample_own l ((sample c).lists l) (sample_chains l)
sample-IsList c m zero small = record {
  linked = (refl, (refl, refl));
  owned = ground arith;
  counted = refl;
  cursor = m;
  inner = first_inner c;
}
sample-IsList c m (suc zero) small = record {
  linked = (refl, refl);
  owned = ground arith;
  counted = refl;
  cursor = refl;
  inner = second_inner;
}
sample-IsList c m (suc (suc l)) small = absurd (omega arith)

pub sample_values : (l : ℕ) → l < max_lists → items sample_node (sample_chains l) ≡ sample_items l
unfolding items
sample_values zero small = refl
sample_values (suc zero) small = refl
sample_values (suc (suc l)) small = absurd (omega arith)

pub sample_free : Owned sample_own max_lists (3 ∷ 4 ∷ 5 ∷ 6 ∷ 7 ∷ 8 ∷ 9 ∷ [])
sample_free = ground arith

abbrev pub sample_Holds : (c : ℕ) → has c (0 ∷ 1 ∷ []) ≡ true → Holds sample_items (sample c)
sample_Holds c m = record {
  own = sample_own;
  chains = sample_chains;
  free = 3 ∷ 4 ∷ 5 ∷ 6 ∷ 7 ∷ 8 ∷ 9 ∷ [];
  shape = record {
    list = sample-IsList c m;
    free = (refl, (refl, (refl, (refl, (refl, (refl, (refl, refl)))))));
    free_owned = sample_free;
    total = refl;
  };
  values = sample_values;
}

-- Two empty lists.
abbrev pub fresh : Pool
fresh = record {
  nodes = λ i. record {
    item = 0;
    next = none;
    prev = none;
    link = if i == 9 then none else some (i + 1);
  };
  lists = λ l. empty_list none;
  free_node_head = some 0;
  free_list_head = none;
  initialized = 1;
}

pub fresh_Holds : Holds (λ _. []) fresh
fresh_Holds = IsFresh-Holds fresh record {
  chain = (refl, (refl, (refl, (refl, (refl, (refl, (refl, (refl, (refl, (refl, refl))))))))));
  heads = (refl, refl);
}
