-- ===== src/Kernel/Fs/Maps/Truncates.antt =====
-- itrunc on a file.
use native.Mathlib.Decide.{ℕ_discrete}
use listlib_and_system_calls.Common.{
  ◌/◌, ◌%◌, ℕ, zero, suc, ◌+◌, ◌-◌, ◌*◌, ◌<◌, ◌≤◌, ◌≡◌, ◌≢◌, inl, inr, refl, true, false, ◌==◌,
  ◌&&◌, not, if◌then◌else◌, some, arith, ap, ◌∙◌, sym, Bool-cases, subst, ne→==, eq→==, ==→ne,
  ==→eq, update_ne, update-if,
}
use listlib_and_system_calls.Kernel.Fs.{Block, Disk, SuperBlock, bblock, bpb}
use listlib_and_system_calls.Kernel.Fs.Bits.{bit_set}
use listlib_and_system_calls.Kernel.Fs.Bitmap.{bfree}
use listlib_and_system_calls.Kernel.Fs.Bitmap.Marks.{used, AreBytes}
use listlib_and_system_calls.Kernel.Fs.Dinodes.{Dinode, iblock, write_dinode, get32}
use listlib_and_system_calls.Kernel.Fs.Maps.{
  ndirect, nindirect, set_addr, free_entries, free_direct, free_indirect, itrunc,
}
use listlib_and_system_calls.Kernel.Fs.Maps.Slots.{slot, nslot, IsFile}
use listlib_and_system_calls.Kernel.Fs.Maps.Grows.{slot_addr, slot_entry}
use listlib_and_system_calls.Kernel.Fs.Maps.Frees.{
  among, Freed, bfree-Freed, Freed-trans, Freed-gone, AreOwn, free_entries-Freed, free_direct-Freed,
  entries_of, in_file,
}

among-false :
    (f : ℕ → ℕ) (lo n c : ℕ)
    → ((i : ℕ) → lo ≤ i → i < lo + n → f i ≢ 0 → f i ≢ c)
    → among f lo n c ≡ false
unfolding among
among-false f lo zero c h = refl
among-false f lo (suc n) c h = elim (Bool-cases (f lo == 0)) [
  | inl empty ↦ rw empty (among-false f (lo + 1) n c (λ i from to. h i (omega arith) (omega arith)))
  | inr real ↦
      let other : (f lo == c) ≡ false =
        ne→== (f lo) c (h lo (omega arith) (omega arith) (==→ne (f lo) 0 real)) in
      rw (real, other) (among-false f (lo + 1) n c (λ i from to. h i (omega arith) (omega arith)))
]

module _ {sb : SuperBlock} {ip : Dinode} {disk : Disk} (f : IsFile sb ip disk) where
  addr_apart :
      (i s : ℕ) → i ≤ ndirect → s < nslot → i ≢ s → ip.addrs i ≢ 0 → ip.addrs i ≢ slot ip disk s
  addr_apart i s low high ne real e =
      let at = slot_addr ip disk i low in
      ne (f.distinct i s (omega arith) high (λ z. real (sym at ∙ z)) (at ∙ e))

  direct_AreOwn : AreOwn sb ip.addrs 0 ndirect disk
  direct_AreOwn = record {
    small = λ i from to real.
        let at = slot_addr ip disk i (omega arith) in
        subst (λ (b : ℕ). b < sb.size) at (f.owned i (omega arith) (λ z. real (sym at ∙ z))).within;
    taken = λ i from to real.
        let at = slot_addr ip disk i (omega arith) in
        subst (λ (b : ℕ). used sb disk b ≡ true) at
          (f.owned i (omega arith) (λ z. real (sym at ∙ z))).marked;
    apart = λ i j from to last real e.
        addr_apart i j (omega arith) (omega arith) (λ same. absurd (omega arith)) real
          (e ∙ sym (slot_addr ip disk j (omega arith)));
  }

  module _ (there : ip.addrs ndirect ≢ 0) {mid : Disk}
      (d : Freed sb (among ip.addrs 0 ndirect) disk mid) where
    entry_at : (j : ℕ) → entries_of ip disk j ≡ slot ip disk (ndirect + 1 + j)
    entry_at j =
        let at : ndirect + 1 + j - (ndirect + 1) ≡ j = omega arith in
        sym (
          slot_entry ip disk (ndirect + 1 + j) there (omega arith)
          ∙ ap (λ i. get32 (disk (ip.addrs ndirect)) (4 * i)) at)

    -- A slot that is not a direct one is still marked.
    later_taken :
        (s : ℕ) → ndirect ≤ s → s < nslot → slot ip disk s ≢ 0 → used sb mid (slot ip disk s) ≡ true
    later_taken s from to real =
        let off : among ip.addrs 0 ndirect (slot ip disk s) ≡ false =
          among-false ip.addrs 0 ndirect (slot ip disk s)
            (λ i a b r. addr_apart i s (omega arith) to (λ same. absurd (omega arith)) r) in
        d.marks (slot ip disk s) ∙ rw (off, (f.owned s to real).marked) refl

    entries_AreOwn : AreOwn sb (entries_of ip disk) 0 nindirect mid
    entries_AreOwn = record {
      small = λ j from to real.
          subst (λ (b : ℕ). b < sb.size) (sym (entry_at j))
            (f.owned (ndirect + 1 + j) (omega arith) (λ z. real (entry_at j ∙ z))).within;
      taken = λ j from to real.
          subst (λ (b : ℕ). used sb mid b ≡ true) (sym (entry_at j))
            (later_taken (ndirect + 1 + j) (omega arith) (omega arith)
              (λ z. real (entry_at j ∙ z)));
      apart = λ i j from to last real e. absurd (
          omega (
            arith,
            f.distinct (ndirect + 1 + i) (ndirect + 1 + j) (omega arith) (omega arith)
                (λ z. real (entry_at i ∙ z)) (sym (entry_at i) ∙ e ∙ entry_at j),
          ));
    }

    -- The indirect block is not among its entries.
    indirect_taken :
        {after : Disk}
        → Freed sb (among (entries_of ip disk) 0 nindirect) mid after
        → (ip.addrs ndirect < sb.size) × (used sb after (ip.addrs ndirect) ≡ true)
    indirect_taken d' =
        let at = slot_addr ip disk ndirect (omega arith) in
        let here = λ (z : slot ip disk ndirect ≡ 0). there (sym at ∙ z) in
        let off : among (entries_of ip disk) 0 nindirect (ip.addrs ndirect) ≡ false =
          among-false (entries_of ip disk) 0 nindirect (ip.addrs ndirect) (λ j a b r e. absurd (
            omega (
              arith,
              f.distinct (ndirect + 1 + j) ndirect (omega arith) (omega arith)
                  (λ z. r (entry_at j ∙ z)) (sym (entry_at j) ∙ e ∙ sym at),
            ))) in
        let marked =
          subst (λ (b : ℕ). used sb mid b ≡ true) at
            (later_taken ndirect (omega arith) (omega arith) here) in
        (
          subst (λ (b : ℕ). b < sb.size) at (f.owned ndirect (omega arith) here).within,
          d'.marks (ip.addrs ndirect) ∙ rw (off, marked) refl,
        )

free_indirect-some :
    (sb : SuperBlock) (ip : Dinode) (disk d1 d2 : Disk)
    → (ip.addrs ndirect == 0) ≡ false
    → free_entries sb nindirect 0 (disk (ip.addrs ndirect)) disk ≡ some d1
    → bfree sb (ip.addrs ndirect) d1 ≡ some d2
    → free_indirect sb ip disk ≡ some (d2, set_addr ndirect 0 ip)
unfolding free_indirect
free_indirect-some sb ip disk d1 d2 real e e' = rw (real, e, e') refl

free_indirect-none :
    (sb : SuperBlock) (ip : Dinode) (disk : Disk)
    → (ip.addrs ndirect == 0) ≡ true
    → free_indirect sb ip disk ≡ some (disk, ip)
unfolding free_indirect
free_indirect-none sb ip disk empty = rw empty refl

itrunc-some :
    (sb : SuperBlock) (inum : ℕ) (ip ip' ip'' : Dinode) (disk d1 d2 : Disk)
    → free_direct sb ndirect 0 ip disk ≡ some (d1, ip')
    → free_indirect sb ip' d1 ≡ some (d2, ip'')
    → itrunc sb inum ip disk
      ≡ some (write_dinode sb inum (record ip'' { size = 0 }) d2, record ip'' { size = 0 })
unfolding itrunc
itrunc-some sb inum ip ip' ip'' disk d1 d2 e e' = rw (e, itrunc) (rw (e', itrunc) refl)

module _ {sb : SuperBlock} {ip : Dinode} {disk : Disk} (f : IsFile sb ip disk) where
  free_indirect-Freed :
      (ip' : Dinode) (mid : Disk)
      → Freed sb (among ip.addrs 0 ndirect) disk mid
      → ip'.addrs ndirect ≡ ip.addrs ndirect
      → (after : Disk) × (ip'' : Dinode) × (free_indirect sb ip' mid ≡ some (after, ip''))
        × Freed sb (in_file ip disk) disk after
        × ((t : ℕ) → ip''.addrs t ≡ (if ndirect == t then 0 else ip'.addrs t))
  free_indirect-Freed ip' mid d same = elim (Bool-cases (ip.addrs ndirect == 0)) [
    | inl empty ↦ (
      mid,
      ip',
      free_indirect-none sb ip' mid (ap (λ a. a == 0) same ∙ empty),
      Freed-gone sb (λ c. rw empty (ground arith)) d,
      λ t. elim (ℕ_discrete ndirect t) [
        | yes e ↦
            let here : (ndirect == t) ≡ true = eq→== ndirect t e in
            rw here (subst (λ (s : ℕ). ip'.addrs s ≡ 0) e (same ∙ ==→eq (ip.addrs ndirect) 0 empty))
        | no ne ↦ let other : (ndirect == t) ≡ false = ne→== ndirect t ne in rw other refl
      ],
    )
    | inr real ↦
        let there = ==→ne (ip.addrs ndirect) 0 real in
        let at = slot_addr ip disk ndirect (omega arith) in
        let o = f.owned ndirect (omega arith) (λ z. there (sym at ∙ z)) in
        let block : mid (ip.addrs ndirect) ≡ disk (ip.addrs ndirect) =
          d.kept (ip.addrs ndirect) (λ c h e. o.off_map c h (at ∙ e)) in
        let (d1, e1, f1) =
          free_entries-Freed sb nindirect 0 (disk (ip.addrs ndirect)) mid d.bytes
            (entries_AreOwn f there d) in
        let (small, marked) = indirect_taken f there d f1 in
        let (d2, e2, f2) = bfree-Freed sb (ip.addrs ndirect) d1 f1.bytes small marked in
        (
          d2,
          set_addr ndirect 0 ip',
          free_indirect-some sb ip' mid d1 d2 (ap (λ a. a == 0) same ∙ real)
              (ap (λ a. free_entries sb nindirect 0 (mid a) mid) same
                ∙ ap (λ (b : Block). free_entries sb nindirect 0 b mid) block
                ∙ e1)
              (ap (λ a. bfree sb a d1) same ∙ e2),
          Freed-gone sb (λ c. rw real (ground arith)) (Freed-trans sb (Freed-trans sb d f1) f2),
          λ t. update-if ip'.addrs ndirect t 0,
        )
  ]

  -- For a file whose blocks are its own, on a disk whose blocks of inodes are none of the map: `itrunc` does not panic; exactly the marks of the
  -- blocks of the file are cleared, the indirect block and its entries included; no block changes but those of the map and that of the inode; the
  -- inode has size 0 and no blocks.
  pub itrunc-frees :
      (inum : ℕ)
      → AreBytes disk
      → ((c : ℕ) → c < sb.size → iblock inum sb ≢ bblock c sb)
      → (after : Disk) × (ip' : Dinode) × (itrunc sb inum ip disk ≡ some (after, ip'))
        × ((c : ℕ) → c < sb.size → used sb after c ≡ (not (in_file ip disk c) && used sb disk c))
        × ((a : ℕ)
            → ((c : ℕ) → c < sb.size → a ≢ bblock c sb)
            → iblock inum sb ≢ a
            → after a ≡ disk a)
        × (ip'.size ≡ 0)
        × ((t : ℕ) → t ≤ ndirect → ip'.addrs t ≡ 0)
  unfolding write_dinode
  itrunc-frees inum bytes apart =
      let (d1, ip', e, freed, zeros, rest) =
        free_direct-Freed sb ndirect 0 ip disk bytes (direct_AreOwn f) in
      let (d2, ip'', e', freed', zeros') = free_indirect-Freed ip' d1 freed (zeros ndirect) in
      (
        write_dinode sb inum (record ip'' { size = 0 }) d2,
        record ip'' { size = 0 },
        itrunc-some sb inum ip ip' ip'' disk d1 d2 e e',
        λ c h.
            ap (λ (b : Block). bit_set (b (c % bpb / 8)) (c % bpb % 8))
              (update_ne d2 (iblock inum sb) (bblock c sb) _ (apart c h))
            ∙ freed'.marks c,
        λ a off ne. update_ne d2 (iblock inum sb) a _ ne ∙ freed'.kept a off,
        refl,
        λ t h. zeros' t ∙ ap (λ v. if ndirect == t then 0 else v) (zeros t) ∙ (ground arith),
      )
