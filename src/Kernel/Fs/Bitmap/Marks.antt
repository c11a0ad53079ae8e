-- ===== src/Kernel/Fs/Bitmap/Marks.antt =====
-- What a mark in the free map changes.
use native.Mathlib.Decide.{ℕ_discrete}
use listlib_and_system_calls.Common.{
  inr, inl, Bool-cases, ℕ, ◌/◌, ◌%◌, ◌<◌, ◌≡◌, ◌≢◌, Bool, false, not, ◌==◌, ◌&&◌, ◌||◌, update,
  update_self, update_ne, arith, ap, ◌∙◌, sym, ne→==, subst,
}
use listlib_and_system_calls.Kernel.Fs.{Block, Disk, SuperBlock, bpb, bblock}
use listlib_and_system_calls.Kernel.Fs.Bits.{
  bit_set, set_bit, clear_bit, bit_set-set_bit, bit_set-clear_bit, set_bit_byte, clear_bit_byte,
}
use listlib_and_system_calls.Kernel.Fs.Bitmap.{map_bit, mark_bit, unmark_bit, bzero, zero_block}

-- The values of bytes.
abbrev pub AreBytes : Disk → Type 0
AreBytes disk = (blk i : ℕ) → disk blk i < 256

-- The block is marked as used.
abbrev pub used : SuperBlock → Disk → ℕ → Bool
used sb disk b = map_bit disk (bblock b sb) (b % bpb)

-- A change of one byte of the free map.
module _ (sb : SuperBlock) (disk : Disk) (b c : ℕ) (change : ℕ → ℕ → ℕ) where
  changed : Disk
  changed = update disk (bblock b sb) (
      update (disk (bblock b sb)) (b % bpb / 8)
        (change (disk (bblock b sb) (b % bpb / 8)) (b % bpb % 8)))

  -- The bit of another byte is as it was.
  changed_far :
      (bblock b sb ≡ bblock c sb → b % bpb / 8 ≢ c % bpb / 8) → (used sb changed c ≡ used sb disk c)
  unfolding changed
  changed_far far = elim (ℕ_discrete (bblock b sb) (bblock c sb)) [
    | yes e ↦
        let at : changed (bblock c sb) (c % bpb / 8) ≡ disk (bblock c sb) (c % bpb / 8) =
          subst (λ blk. changed blk (c % bpb / 8) ≡ disk blk (c % bpb / 8)) e
            (ap (λ (block : Block). block (c % bpb / 8)) (update_self disk (bblock b sb) _)
              ∙ update_ne (disk (bblock b sb)) (b % bpb / 8) (c % bpb / 8) _ (far e)) in
        ap (λ byte. bit_set byte (c % bpb % 8)) at
    | no ne ↦
        ap (λ (block : Block). bit_set (block (c % bpb / 8)) (c % bpb % 8))
          (update_ne disk (bblock b sb) (bblock c sb) _ ne)
  ]

  -- The bit of the same byte.
  changed_near :
      bblock b sb ≡ bblock c sb
      → b % bpb / 8 ≡ c % bpb / 8
      → used sb changed c
        ≡ bit_set (change (disk (bblock c sb) (c % bpb / 8)) (b % bpb % 8)) (c % bpb % 8)
  unfolding changed
  changed_near e e' =
      rw (← e, ← e')
        (ap (λ (block : Block). bit_set (block (b % bpb / 8)) (c % bpb % 8))
            (update_self disk (bblock b sb) _)
          ∙ ap (λ byte. bit_set byte (c % bpb % 8))
              (update_self (disk (bblock b sb)) (b % bpb / 8) _))

-- The same place in the map is the same block.
place_eq :
    (sb : SuperBlock) (b c : ℕ)
    → bblock b sb ≡ bblock c sb
    → b % bpb / 8 ≡ c % bpb / 8
    → (b % bpb % 8 == c % bpb % 8) ≡ (b == c)
place_eq sb b c e e' = ground arith

-- Another block or byte is another block.
place_ne :
    (sb : SuperBlock) (b c : ℕ)
    → (bblock b sb ≡ bblock c sb → b % bpb / 8 ≢ c % bpb / 8)
    → (b == c) ≡ false
place_ne sb b c far = ne→== b c (λ e. far (ap (λ a. bblock a sb) e) (ap (λ a. a % bpb / 8) e))

module _ (sb : SuperBlock) (disk : Disk) (b c : ℕ) (bytes : AreBytes disk) where
  pub used-mark_bit :
      used sb (mark_bit (bblock b sb) (b % bpb) disk) c ≡ ((b == c) || used sb disk c)
  unfolding mark_bit changed
  used-mark_bit = elim (ℕ_discrete (bblock b sb) (bblock c sb)) [
    | yes e ↦ elim (ℕ_discrete (b % bpb / 8) (c % bpb / 8)) [
      | yes e' ↦
          changed_near sb disk b c set_bit e e'
          ∙ bit_set-set_bit (disk (bblock c sb) (c % bpb / 8)) (b % bpb % 8) (c % bpb % 8)
              (bytes (bblock c sb) (c % bpb / 8)) (omega arith) (omega arith)
          ∙ ap (λ t. t || used sb disk c) (place_eq sb b c e e')
      | no ne ↦
          changed_far sb disk b c set_bit (λ _. ne)
          ∙ ap (λ t. t || used sb disk c) (sym (place_ne sb b c (λ _. ne)))
    ]
    | no ne ↦
        changed_far sb disk b c set_bit (λ e. absurd (ne e))
        ∙ ap (λ t. t || used sb disk c) (sym (place_ne sb b c (λ e. absurd (ne e))))
  ]

  pub used-unmark_bit :
      used sb (unmark_bit (bblock b sb) (b % bpb) disk) c ≡ (not (b == c) && used sb disk c)
  unfolding unmark_bit changed
  used-unmark_bit = elim (ℕ_discrete (bblock b sb) (bblock c sb)) [
    | yes e ↦ elim (ℕ_discrete (b % bpb / 8) (c % bpb / 8)) [
      | yes e' ↦
          changed_near sb disk b c clear_bit e e'
          ∙ bit_set-clear_bit (disk (bblock c sb) (c % bpb / 8)) (b % bpb % 8) (c % bpb % 8)
              (bytes (bblock c sb) (c % bpb / 8)) (omega arith) (omega arith)
          ∙ ap (λ t. not t && used sb disk c) (place_eq sb b c e e')
      | no ne ↦
          changed_far sb disk b c clear_bit (λ _. ne)
          ∙ ap (λ t. not t && used sb disk c) (sym (place_ne sb b c (λ _. ne)))
    ]
    | no ne ↦
        changed_far sb disk b c clear_bit (λ e. absurd (ne e))
        ∙ ap (λ t. not t && used sb disk c) (sym (place_ne sb b c (λ e. absurd (ne e))))
  ]

-- A block that is no map block of `c` and is emptied.
pub used-bzero :
    (sb : SuperBlock) (disk : Disk) (bno c : ℕ)
    → bno ≢ bblock c sb
    → used sb (bzero bno disk) c ≡ used sb disk c
unfolding bzero
used-bzero sb disk bno c ne =
    ap (λ (block : Block). bit_set (block (c % bpb / 8)) (c % bpb % 8))
      (update_ne disk bno (bblock c sb) _ ne)

-- Bytes stay bytes.
pub update-AreBytes :
    (disk : Disk) (blk : ℕ) (block : Block)
    → AreBytes disk
    → ((i : ℕ) → block i < 256)
    → AreBytes (update disk blk block)
unfolding update
update-AreBytes disk blk block bytes small a i = elim (Bool-cases (blk == a)) [
  | inl e ↦ rw e (small i)
  | inr e ↦ rw e (bytes a i)
]

byte_at_once :
    (block : Block) (i v : ℕ)
    → ((j : ℕ) → block j < 256)
    → v < 256
    → (j : ℕ) → update block i v j < 256
unfolding update
byte_at_once block i v bytes small j = elim (Bool-cases (i == j)) [
  | inl e ↦ rw e small
  | inr e ↦ rw e (bytes j)
]

pub mark_bit-AreBytes : (blk bi : ℕ) (disk : Disk) → AreBytes disk → AreBytes (mark_bit blk bi disk)
unfolding mark_bit
mark_bit-AreBytes blk bi disk bytes = update-AreBytes disk blk _ bytes (
    byte_at_once (disk blk) (bi / 8) _ (bytes blk) (
      set_bit_byte (disk blk (bi / 8)) (bi % 8) 0 (bytes blk (bi / 8)) (omega arith) (omega arith)))

pub unmark_bit-AreBytes :
    (blk bi : ℕ) (disk : Disk) → AreBytes disk → AreBytes (unmark_bit blk bi disk)
unfolding unmark_bit
unmark_bit-AreBytes blk bi disk bytes = update-AreBytes disk blk _ bytes (
    byte_at_once (disk blk) (bi / 8) _ (bytes blk) (
      clear_bit_byte (disk blk (bi / 8)) (bi % 8) 0 (bytes blk (bi / 8)) (omega arith)
        (omega arith)))

pub bzero-AreBytes : (bno : ℕ) (disk : Disk) → AreBytes disk → AreBytes (bzero bno disk)
unfolding bzero
bzero-AreBytes bno disk bytes = update-AreBytes disk bno _ bytes (λ i. omega arith)

-- The blocks that are not written.
pub bzero_ne : (bno a : ℕ) (disk : Disk) → bno ≢ a → bzero bno disk a ≡ disk a
unfolding bzero
bzero_ne bno a disk ne = update_ne disk bno a _ ne

pub mark_bit_ne : (blk bi a : ℕ) (disk : Disk) → blk ≢ a → mark_bit blk bi disk a ≡ disk a
unfolding mark_bit
mark_bit_ne blk bi a disk ne = update_ne disk blk a _ ne

pub bzero_self : (bno : ℕ) (disk : Disk) → bzero bno disk bno ≡ zero_block
unfolding bzero
bzero_self bno disk = update_self disk bno _

pub unmark_bit_ne : (blk bi a : ℕ) (disk : Disk) → blk ≢ a → unmark_bit blk bi disk a ≡ disk a
unfolding unmark_bit
unmark_bit_ne blk bi a disk ne = update_ne disk blk a _ ne
