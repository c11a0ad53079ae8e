-- ===== src/Kernel/Bio/Tests.antt =====
-- A cache that was just set up.
use listlib_and_system_calls.Common.{some, for_loop, refl, [], update, ◌∷◌, false, ℕ, ◌≡◌}
use listlib_and_system_calls.Kernel.Bio.Start.{binit-IsCache}
use listlib_and_system_calls.Kernel.Bio.Unique.{IsCache, Gets, bget-Gets}
use listlib_and_system_calls.Kernel.Bio.Contents.{Reads, bread-Reads}
use listlib_and_system_calls.Kernel.Sleeplock.{initsleeplock, holdingsleep}
use listlib_and_system_calls.Kernel.Bio.{
  count_down, push_front, Bcache, binit, brelse, nbuf, recycle,
}
use listlib_and_system_calls.Kernel.Bio.Ring.{Ordered, downward, binit-Ordered, brelse-Ordered}

abbrev blank : Bcache
blank = record {
  next = λ b. 0;
  prev = λ b. 0;
  dev = λ b. 0;
  blockno = λ b. 0;
  refcnt = λ b. 0;
  valid = λ b. false;
  lock = λ b. initsleeplock;
  content = λ b i. 0;
}

-- The byte of a block is its number.
abbrev numbered : ℕ → ℕ → ℕ → ℕ
numbered dev blockno i = blockno

blank-IsCache : IsCache (binit blank) (downward nbuf)
blank-IsCache = binit-IsCache blank (λ b. refl)

binit_valid : (b : ℕ) → (binit blank).valid b ≡ false
unfolding binit push_front for_loop
binit_valid b = refl

bget-Gets_example : Gets 7 1 33 (binit blank) (downward nbuf)
bget-Gets_example = bget-Gets 7 1 33 (binit blank) (downward nbuf) blank-IsCache

bread-Reads_example : Reads 7 numbered 1 33 (binit blank) (downward nbuf)
bread-Reads_example =
    bread-Reads 7 numbered 1 33 (binit blank) (downward nbuf) blank-IsCache
      (λ b small l. absurd (cc (l, binit_valid b)))

-- Buffer 28 is in use by process 7.
abbrev in_use : Bcache
in_use = record (recycle 1 33 28 (binit blank)) { lock = λ b. record { locked = 1; pid = 7 } }

in_use-Ordered : Ordered in_use (29 ∷ 28 ∷ downward 28)
in_use-Ordered =
    let o = binit-Ordered blank in record { links = o.links; distinct = o.distinct; off = o.off }

brelse-Ordered_example :
    (c' : Bcache) × (brelse 7 28 in_use ≡ some c')
    × Ordered c' (28 ∷ 29 ∷ downward 28)
    × (c'.refcnt ≡ update in_use.refcnt 28 0)
    × (c'.lock ≡ update in_use.lock 28 initsleeplock)
unfolding count_down update holdingsleep
brelse-Ordered_example = brelse-Ordered 7 in_use (29 ∷ []) 28 (downward 28) in_use-Ordered refl
