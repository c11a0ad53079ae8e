-- ===== src/Kernel/Fs/Paths/Tests.antt =====
-- Paths in a small tree.
use listlib_and_system_calls.Common.{
  ◌+◌, ◌||◌, ℕ, Bool, false, ◌≡◌, ◌==◌, refl, List, [], ◌∷◌, Option, some,
}
use listlib_and_system_calls.Kernel.Fs.Paths.{
  skip_slashes, split_element, skipelem, namex, start_inode,
}
use listlib_and_system_calls.Kernel.Fs.Paths.Elements.{names}
use listlib_and_system_calls.Kernel.Fs.Paths.Walks.{Finds, namex-Finds}

-- "//a/bb"
abbrev sample_path : List ℕ
sample_path = b'/' ∷ b'/' ∷ b'a' ∷ b'/' ∷ b'b' ∷ b'b' ∷ []

skipelem_run : skipelem sample_path ≡ some (b'a' ∷ [], b'b' ∷ b'b' ∷ [])
unfolding skipelem skip_slashes split_element
skipelem_run = refl

-- The root and inode 2 are directories; every name leads one further.
abbrev is_small : ℕ → Bool
is_small ip = (ip == 1) || (ip == 2)

abbrev one_further : ℕ → List ℕ → Option ℕ
one_further ip name = some (ip + 1)

namex-Finds_example :
    Finds is_small one_further false
      (names sample_path)
      (start_inode sample_path 5)
      []
      (λ i. 0)
      (namex is_small one_further false 5 sample_path (λ i. 0))
namex-Finds_example = namex-Finds is_small one_further false 5 sample_path (λ i. 0)
