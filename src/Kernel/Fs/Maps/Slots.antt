-- ===== src/Kernel/Fs/Maps/Slots.antt =====
-- The slots that hold the block numbers of a file: twelve direct ones, that of the indirect block,
-- and the 256 in it.
use listlib_and_system_calls.Common.{
  ==→eq, ℕ, ◌+◌, ◌-◌, ◌*◌, ◌<◌, ◌≡◌, ◌≢◌, inl, inr, refl, true, false, leb, ◌==◌, ◌||◌,
  if◌then◌else◌, arith, ◌∙◌, sym, Bool-cases, subst,
}
use listlib_and_system_calls.Kernel.Fs.{Disk, SuperBlock, bblock}
use listlib_and_system_calls.Kernel.Fs.Bitmap.Marks.{used}
use listlib_and_system_calls.Kernel.Fs.Bitmap.Allocates.{IsMapped}
use listlib_and_system_calls.Kernel.Fs.Bitmap.{zero_block}
use listlib_and_system_calls.Kernel.Fs.Dinodes.{Dinode, get32}
use listlib_and_system_calls.Kernel.Fs.Maps.{ndirect}

-- 0 if there is no block.
unfoldable pub slot : Dinode → Disk → ℕ → ℕ
slot ip disk s =
    if leb s ndirect
    then ip.addrs s
    else if ip.addrs ndirect == 0
    then 0
    else get32 (disk (ip.addrs ndirect)) (4 * (s - (ndirect + 1)))

abbrev pub nslot : ℕ
nslot = 269

-- A block of the disk that is marked as used and is none of the map.
pub record Owned (sb : SuperBlock) (disk : Disk) (a : ℕ) : Type 0 where
  pub within : a < sb.size
  pub marked : used sb disk a ≡ true
  pub off_map : (c : ℕ) → c < sb.size → a ≢ bblock c sb

-- The blocks of a file are its own, each in one slot.
pub record IsFile (sb : SuperBlock) (ip : Dinode) (disk : Disk) : Type 0 where
  pub owned : (s : ℕ) → s < nslot → slot ip disk s ≢ 0 → Owned sb disk (slot ip disk s)
  pub distinct :
      (s t : ℕ)
      → s < nslot
      → t < nslot
      → slot ip disk s ≢ 0
      → slot ip disk s ≡ slot ip disk t
      → s ≡ t

-- The slot `s` was empty and gets the block `a`, which was free.
pub record Grows (sb : SuperBlock) (ip : Dinode) (disk : Disk) (s a : ℕ) (ip' : Dinode)
    (disk' : Disk) : Type 0 where
  pub real : a ≢ 0
  pub was_free : used sb disk a ≡ false
  pub slots : (t : ℕ) → t < nslot → slot ip' disk' t ≡ (if s == t then a else slot ip disk t)
  pub marks : (c : ℕ) → c < sb.size → used sb disk' c ≡ ((a == c) || used sb disk c)
  pub own : Owned sb disk' a
  pub mapped : IsMapped sb disk'
  pub fresh : disk' a ≡ zero_block
  pub kept :
      (b : ℕ)
      → b ≢ a
      → ((c : ℕ) → c < sb.size → b ≢ bblock c sb)
      → b ≢ ip'.addrs ndirect
      → disk' b ≡ disk b

module _ {sb : SuperBlock} {ip ip' : Dinode} {disk disk' : Disk} {s a : ℕ} (f : IsFile sb ip disk)
    (g : Grows sb ip disk s a ip' disk') where
  pub Grows-same : (t : ℕ) → t < nslot → (s == t) ≡ false → slot ip' disk' t ≡ slot ip disk t
  Grows-same t h e = g.slots t h ∙ rw e refl

  pub Grows-new : (t : ℕ) → t < nslot → (s == t) ≡ true → slot ip' disk' t ≡ a
  Grows-new t h e = g.slots t h ∙ rw e refl

  pub still_Owned : (b : ℕ) → Owned sb disk b → Owned sb disk' b
  still_Owned b o = record {
    within = o.within;
    marked = g.marks b o.within ∙ rw o.marked (ground arith);
    off_map = o.off_map;
  }

  -- A block of the file is not the new one.
  pub old_ne : (t : ℕ) → t < nslot → slot ip disk t ≡ a → ⊥
  old_ne t h e =
      let o = f.owned t h (λ z. g.real (sym e ∙ z)) in
      absurd (cc (subst (λ b. used sb disk b ≡ true) e o.marked, g.was_free))

  pub Grows-IsFile : IsFile sb ip' disk'
  Grows-IsFile = record {
    owned = λ t h real. elim (Bool-cases (s == t)) [
      | inl new ↦ rw (Grows-new t h new) g.own
      | inr old ↦
          let e = Grows-same t h old in
          rw e (still_Owned (slot ip disk t) (f.owned t h (λ z. real (e ∙ z))))
    ];
    distinct = λ t u h h' real same. elim (Bool-cases (s == t)) [
      | inl new ↦ elim (Bool-cases (s == u)) [
        | inl new' ↦ omega (arith, ==→eq s t new, ==→eq s u new')
        | inr old' ↦
            absurd (old_ne u h' (sym (Grows-same u h' old') ∙ sym same ∙ Grows-new t h new))
      ]
      | inr old ↦ elim (Bool-cases (s == u)) [
        | inl new' ↦ absurd (old_ne t h (sym (Grows-same t h old) ∙ same ∙ Grows-new u h' new'))
        | inr old' ↦
            f.distinct t u h h' (λ z. real (Grows-same t h old ∙ z))
              (sym (Grows-same t h old) ∙ same ∙ Grows-same u h' old')
      ]
    ];
  }
