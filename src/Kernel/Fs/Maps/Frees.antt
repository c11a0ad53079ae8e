-- ===== src/Kernel/Fs/Maps/Frees.antt =====
-- What itrunc frees.
use native.Mathlib.Decide.{ℕ_discrete}
use listlib_and_system_calls.Common.{
  ◌%◌, ℕ, zero, suc, ◌+◌, ◌*◌, ◌<◌, ◌≤◌, ◌≡◌, ◌≢◌, inl, inr, refl, Bool, true, false, ltb, leb,
  ◌==◌, ◌&&◌, ◌||◌, not, if◌then◌else◌, some, arith, ap, ◌∙◌, sym, Bool-cases, subst, ne→==, ==→ne,
  ==→eq, update, update_self, update_ne,
}
use listlib_and_system_calls.Kernel.Fs.{Block, Disk, SuperBlock, bblock, bpb}
use listlib_and_system_calls.Kernel.Fs.Bitmap.{unmark_bit, bfree}
use listlib_and_system_calls.Kernel.Fs.Bitmap.Marks.{
  used, AreBytes, used-unmark_bit, unmark_bit-AreBytes, unmark_bit_ne,
}
use listlib_and_system_calls.Kernel.Fs.Dinodes.{Dinode, get32}
use listlib_and_system_calls.Kernel.Fs.Maps.{
  ndirect, nindirect, set_addr, free_entries, free_direct,
}

-- A block is among those with some indices; 0 is none.
unfoldable pub among : (ℕ → ℕ) → ℕ → ℕ → ℕ → Bool
among f lo zero c = false
among f lo (suc n) c = (not (f lo == 0) && (f lo == c)) || among f (lo + 1) n c

-- The disk behind some frees: the marks of these blocks are cleared, no other, and no block but
-- those of the map has changed.
pub record Freed (sb : SuperBlock) (gone : ℕ → Bool) (disk after : Disk) : Type 0 where
  pub bytes : AreBytes after
  pub marks : (c : ℕ) → used sb after c ≡ (not (gone c) && used sb disk c)
  pub kept : (a : ℕ) → ((c : ℕ) → c < sb.size → a ≢ bblock c sb) → after a ≡ disk a

module _ (sb : SuperBlock) where
  pub bfree-Freed :
      (b : ℕ) (disk : Disk)
      → AreBytes disk
      → b < sb.size
      → used sb disk b ≡ true
      → (after : Disk) × (bfree sb b disk ≡ some after) × Freed sb (λ c. b == c) disk after
  unfolding bfree
  bfree-Freed b disk bytes small taken = (
    unmark_bit (bblock b sb) (b % bpb) disk,
    rw taken refl,
    record {
      bytes = unmark_bit-AreBytes (bblock b sb) (b % bpb) disk bytes;
      marks = λ c. used-unmark_bit sb disk b c bytes;
      kept = λ a off. unmark_bit_ne (bblock b sb) (b % bpb) a disk (λ e. off b small (sym e));
    },
  )

  pub Freed-trans :
      {gone gone' : ℕ → Bool} {disk mid after : Disk}
      → Freed sb gone disk mid
      → Freed sb gone' mid after
      → Freed sb (λ c. gone c || gone' c) disk after
  Freed-trans {gone} {gone'} {disk} {mid} {after} d e = record {
    bytes = e.bytes;
    marks = λ c.
        e.marks c
        ∙ ap (λ b. not (gone' c) && b) (d.marks c)
        ∙ de_morgan (gone c) (gone' c) (used sb disk c);
    kept = λ a off. e.kept a off ∙ d.kept a off;
  }
    where
      de_morgan : (p q r : Bool) → (not q && (not p && r)) ≡ (not (p || q) && r)
      de_morgan p q r = ground arith

  -- The blocks with these indices are in use, and no two are the same.
  pub record AreOwn (f : ℕ → ℕ) (lo n : ℕ) (disk : Disk) : Type 0 where
    pub small : (i : ℕ) → lo ≤ i → i < lo + n → f i ≢ 0 → f i < sb.size
    pub taken : (i : ℕ) → lo ≤ i → i < lo + n → f i ≢ 0 → used sb disk (f i) ≡ true
    pub apart : (i j : ℕ) → lo ≤ i → i < j → j < lo + n → f i ≢ 0 → f i ≢ f j

  -- Behind the free of the first one the others are still there.
  AreOwn-next :
      (f : ℕ → ℕ) (lo n : ℕ) (disk after : Disk)
      → AreOwn f lo (suc n) disk
      → f lo ≢ 0
      → Freed sb (λ c. f lo == c) disk after
      → AreOwn f (lo + 1) n after
  AreOwn-next f lo n disk after o real d = record {
    small = λ i from to r. o.small i (omega arith) (omega arith) r;
    taken = λ i from to r.
        let other : (f lo == f i) ≡ false =
          ne→== (f lo) (f i) (o.apart lo i (omega arith) (omega arith) (omega arith) real) in
        d.marks (f i) ∙ rw (other, o.taken i (omega arith) (omega arith) r) refl;
    apart = λ i j from to last r. o.apart i j (omega arith) to (omega arith) r;
  }

  AreOwn-skip :
      (f : ℕ → ℕ) (lo n : ℕ) (disk : Disk) → AreOwn f lo (suc n) disk → AreOwn f (lo + 1) n disk
  AreOwn-skip f lo n disk o = record {
    small = λ i from to r. o.small i (omega arith) (omega arith) r;
    taken = λ i from to r. o.taken i (omega arith) (omega arith) r;
    apart = λ i j from to last r. o.apart i j (omega arith) to (omega arith) r;
  }

  pub Freed-gone :
      {gone gone' : ℕ → Bool} {disk after : Disk}
      → ((c : ℕ) → gone c ≡ gone' c)
      → Freed sb gone disk after
      → Freed sb gone' disk after
  Freed-gone {gone} {gone'} {disk} {after} same d = record {
    bytes = d.bytes;
    marks = λ c. d.marks c ∙ ap (λ g. not g && used sb disk c) (same c);
    kept = d.kept;
  }

  pub Freed-none : {disk : Disk} → AreBytes disk → Freed sb (λ c. false) disk disk
  Freed-none bytes = record { bytes = bytes; marks = λ c. refl; kept = λ a off. refl }

  pub free_entries-Freed :
      (k j : ℕ) (a : Block) (disk : Disk)
      → AreBytes disk
      → AreOwn (λ i. get32 a (4 * i)) j k disk
      → (after : Disk) × (free_entries sb k j a disk ≡ some after)
        × Freed sb (among (λ i. get32 a (4 * i)) j k) disk after
  unfolding free_entries among
  free_entries-Freed zero j a disk bytes o = (disk, refl, Freed-none bytes)
  free_entries-Freed (suc k) j a disk bytes o = elim (Bool-cases (get32 a (4 * j) == 0)) [
    | inl empty ↦
        let (after, e, d) = free_entries-Freed k (j + 1) a disk bytes (AreOwn-skip _ j k disk o) in
        (after, rw empty e, Freed-gone (λ c. rw empty refl) d)
    | inr real ↦
        let ne = ==→ne _ 0 real in
        let (mid, e, d) =
          bfree-Freed (get32 a (4 * j)) disk bytes (o.small j (omega arith) (omega arith) ne)
            (o.taken j (omega arith) (omega arith) ne) in
        let (after, e', d') =
          free_entries-Freed k (j + 1) a mid d.bytes (AreOwn-next _ j k disk mid o ne d) in
        (after, rw (real, e) e', Freed-gone (λ c. rw real refl) (Freed-trans d d'))
  ]

  -- Indices in front do not count.
  AreOwn-cong :
      (f g : ℕ → ℕ) (lo n : ℕ) (disk : Disk)
      → ((i : ℕ) → lo ≤ i → f i ≡ g i)
      → AreOwn f lo n disk
      → AreOwn g lo n disk
  AreOwn-cong f g lo n disk same o = record {
    small = λ i from to r.
        subst (λ (b : ℕ). b < sb.size) (same i from)
          (o.small i from to (λ z. r (sym (same i from) ∙ z)));
    taken = λ i from to r.
        subst (λ (b : ℕ). used sb disk b ≡ true) (same i from)
          (o.taken i from to (λ z. r (sym (same i from) ∙ z)));
    apart = λ i j from to last r e.
        o.apart i j from to last (λ z. r (sym (same i from) ∙ z))
          (same i from ∙ e ∙ sym (same j (omega arith)));
  }

zeros_next :
    (f : ℕ → ℕ) (i k t : ℕ)
    → f i ≡ 0
    → (if leb (i + 1) t && ltb t (i + 1 + k) then 0 else f t)
      ≡ (if leb i t && ltb t (i + suc k) then 0 else f t)
zeros_next f i k t z = elim (ℕ_discrete i t) [
  | yes e ↦
      let here : f t ≡ 0 = subst (λ (j : ℕ). f j ≡ 0) e z in
      let no_longer : (leb (i + 1) t && ltb t (i + 1 + k)) ≡ false = ground arith in
      let from : (leb i t && ltb t (i + suc k)) ≡ true = ground arith in rw (no_longer, from) here
  | no ne ↦
      let same : (leb (i + 1) t && ltb t (i + 1 + k)) ≡ (leb i t && ltb t (i + suc k)) =
        ground (arith, ne) in
      rw same refl
]

zeros_update :
    (f : ℕ → ℕ) (i k t : ℕ)
    → (if leb i t && ltb t (i + suc k) then 0 else update f i 0 t)
      ≡ (if leb i t && ltb t (i + suc k) then 0 else f t)
zeros_update f i k t = elim (ℕ_discrete i t) [
  | yes e ↦ let from : (leb i t && ltb t (i + suc k)) ≡ true = ground arith in rw from refl
  | no ne ↦ ap (λ v. if leb i t && ltb t (i + suc k) then 0 else v) (update_ne f i t 0 ne)
]

among_cong :
    (f g : ℕ → ℕ) (lo n c : ℕ) → ((i : ℕ) → lo ≤ i → f i ≡ g i) → among f lo n c ≡ among g lo n c
unfolding among
among_cong f g lo zero c same = refl
among_cong f g lo (suc n) c same =
    rw (same lo (omega arith), among_cong f g (lo + 1) n c (λ i h. same i (omega arith))) refl

module _ (sb : SuperBlock) where
  pub free_direct-Freed :
      (k i : ℕ) (ip : Dinode) (disk : Disk)
      → AreBytes disk
      → AreOwn sb ip.addrs i k disk
      → (after : Disk) × (ip' : Dinode) × (free_direct sb k i ip disk ≡ some (after, ip'))
        × Freed sb (among ip.addrs i k) disk after
        × ((t : ℕ) → ip'.addrs t ≡ (if leb i t && ltb t (i + k) then 0 else ip.addrs t))
        × (ip' ≡ record ip { addrs = ip'.addrs })
  unfolding free_direct among
  free_direct-Freed zero i ip disk bytes o =
      (disk, ip, refl, Freed-none sb bytes, λ t. ground arith, refl)
  free_direct-Freed (suc k) i ip disk bytes o = elim (Bool-cases (ip.addrs i == 0)) [
    | inl empty ↦
        let (after, ip', e, d, zeros, rest) =
          free_direct-Freed k (i + 1) ip disk bytes (AreOwn-skip sb ip.addrs i k disk o) in
        (
          after,
          ip',
          rw empty e,
          Freed-gone sb (λ c. rw empty refl) d,
          λ t. zeros t ∙ zeros_next ip.addrs i k t (==→eq (ip.addrs i) 0 empty),
          rest,
        )
    | inr real ↦
        let ne = ==→ne (ip.addrs i) 0 real in
        let (mid, e, d) =
          bfree-Freed sb (ip.addrs i) disk bytes (o.small i (omega arith) (omega arith) ne)
            (o.taken i (omega arith) (omega arith) ne) in
        let same : (t : ℕ) → i + 1 ≤ t → ip.addrs t ≡ update ip.addrs i 0 t =
          λ t h. sym (update_ne ip.addrs i t 0 (λ x. absurd (omega arith))) in
        let (after, ip', e', d', zeros, rest) =
          free_direct-Freed k (i + 1) (set_addr i 0 ip) mid d.bytes (
            AreOwn-cong sb ip.addrs (update ip.addrs i 0) (i + 1) k mid same
              (AreOwn-next sb ip.addrs i k disk mid o ne d)) in
        (
          after,
          ip',
          rw (real, e) e',
          Freed-gone sb
              (λ c. rw real (
                ap (λ b. (ip.addrs i == c) || b)
                  (among_cong (update ip.addrs i 0) ip.addrs (i + 1) k c (λ t h. sym (same t h)))))
              (Freed-trans sb d d'),
          λ t.
              zeros t
              ∙ zeros_next (update ip.addrs i 0) i k t (update_self ip.addrs i 0)
              ∙ zeros_update ip.addrs i k t,
          rest,
        )
  ]

-- The blocks of a file.
abbrev pub entries_of : Dinode → Disk → ℕ → ℕ
entries_of ip disk j = get32 (disk (ip.addrs ndirect)) (4 * j)

-- The marks that `itrunc` clears.
abbrev pub in_file : Dinode → Disk → ℕ → Bool
in_file ip disk c =
    among ip.addrs 0 ndirect c
    || (not (ip.addrs ndirect == 0)
        && (among (entries_of ip disk) 0 nindirect c || (ip.addrs ndirect == c)))
