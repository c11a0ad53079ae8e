-- ===== src/Kernel/Fs/Maps/Blocks.antt =====
-- What bmap returns, and what becomes of the blocks of the file.
use listlib_and_system_calls.Common.{
  ℕ, ◌+◌, ◌-◌, ◌^◌, ◌<◌, ◌≤◌, ◌≡◌, ◌≢◌, ◌⊎◌, inl, inr, refl, true, false, ltb, ◌==◌, if◌then◌else◌,
  some, arith, ◌∙◌, sym, Bool-cases, subst, ne→==, eq→==, ==→eq,
}
use listlib_and_system_calls.Kernel.Fs.{Disk, SuperBlock}
use listlib_and_system_calls.Kernel.Fs.Bitmap.{zero_block}
use listlib_and_system_calls.Kernel.Fs.Bitmap.Marks.{used}
use listlib_and_system_calls.Kernel.Fs.Bitmap.Allocates.{IsMapped}
use listlib_and_system_calls.Kernel.Fs.Dinodes.{Dinode}
use listlib_and_system_calls.Kernel.Fs.Maps.{ndirect, nindirect, Mapped, map_addr, map_entry, bmap}
use listlib_and_system_calls.Kernel.Fs.Maps.Slots.{
  slot, nslot, IsFile, Grows, Grows-same, Grows-new, Grows-IsFile, old_ne,
}
use listlib_and_system_calls.Kernel.Fs.Maps.Grows.{
  slot_none, Maps, IsFull, slot_addr, map_addr-Maps,
}
use listlib_and_system_calls.Kernel.Fs.Maps.Entries.{map_entry-Maps}

-- The slot of block `bn` of the file.
abbrev pub slot_of : ℕ → ℕ
slot_of bn = if ltb bn ndirect then bn else bn + 1

abbrev pub maxfile : ℕ
maxfile = 268

-- What `bmap` promises: the block of the file is the one that it was, or there is none and the disk
-- is full, or it is one that was free and is empty.
pub record Finds (sb : SuperBlock) (bn : ℕ) (ip : Dinode) (disk : Disk) (m : Mapped) : Type 0 where
  pub file : IsFile sb m.ip m.disk
  pub mapped : IsMapped sb m.disk
  pub here : slot m.ip m.disk (slot_of bn) ≡ m.addr
  pub others :
      (k : ℕ) → k < maxfile → bn ≢ k → slot m.ip m.disk (slot_of k) ≡ slot ip disk (slot_of k)
  pub contents :
      (k : ℕ)
      → k < maxfile
      → slot ip disk (slot_of k) ≢ 0
      → m.disk (slot ip disk (slot_of k)) ≡ disk (slot ip disk (slot_of k))
  pub outcome :
      ((slot ip disk (slot_of bn) ≢ 0) × (m.addr ≡ slot ip disk (slot_of bn)))
      ⊎ ((slot ip disk (slot_of bn) ≡ 0) × (m.addr ≡ 0) × IsFull sb m.disk)
      ⊎ ((slot ip disk (slot_of bn) ≡ 0)
          × (m.addr ≢ 0)
          × (used sb disk m.addr ≡ false)
          × (m.disk m.addr ≡ zero_block))

slot_of_inj : (a b : ℕ) → slot_of a ≡ slot_of b → a ≡ b
slot_of_inj a b e = ground (arith, e)

slot_of_small : (a : ℕ) → a < maxfile → slot_of a < nslot
slot_of_small a h = ground arith

slot_of_ne : (a : ℕ) → slot_of a ≢ ndirect
slot_of_ne a e = absurd (ground (arith, e))

module _ {sb : SuperBlock} {ip : Dinode} {disk : Disk} (f : IsFile sb ip disk)
    (v : IsMapped sb disk) where
  -- The data of the file stay where a slot grows.
  Grows-contents :
      (s a : ℕ) (ip' : Dinode) (disk' : Disk) (k : ℕ)
      → Grows sb ip disk s a ip' disk'
      → slot ip disk s ≡ 0
      → k < maxfile
      → slot ip disk (slot_of k) ≢ 0
      → disk' (slot ip disk (slot_of k)) ≡ disk (slot ip disk (slot_of k))
  Grows-contents s a ip' disk' k g z h real =
      let small = slot_of_small k h in
      let o = f.owned (slot_of k) small real in
      let f' = Grows-IsFile f g in
      let old : (s == slot_of k) ≡ false =
        ne→== s (slot_of k) (λ e. real (subst (λ (r : ℕ). slot ip disk r ≡ 0) e z)) in
      let same = Grows-same f g (slot_of k) small old in
      g.kept (slot ip disk (slot_of k)) (λ e. absurd (old_ne f g (slot_of k) small e)) o.off_map
        (λ e. slot_of_ne k (
          f'.distinct (slot_of k) ndirect small (omega arith) (λ z. real (sym same ∙ z))
            (same ∙ e ∙ sym (slot_addr ip' disk' ndirect (omega arith)))))

  -- One step that asks for the block itself.
  Maps-Finds :
      (bn : ℕ) (m : Mapped) → bn < maxfile → Maps sb ip disk (slot_of bn) m → Finds sb bn ip disk m
  Maps-Finds bn m h (inl (real, e)) =
      subst (λ (n : Mapped). Finds sb bn ip disk n) (sym e)
        (record {
          file = f;
          mapped = v;
          here = refl;
          others = λ k h ne. refl;
          contents = λ k h real'. refl;
          outcome = inl (real, refl);
        })
  Maps-Finds bn m h (inr (inl (z, e, full))) =
      subst (λ (n : Mapped). Finds sb bn ip disk n) (sym e)
        (record {
          file = f;
          mapped = v;
          here = z;
          others = λ k h ne. refl;
          contents = λ k h real'. refl;
          outcome = inr (inl (z, refl, full));
        })
  Maps-Finds bn m h (inr (inr (z, g))) = record {
    file = Grows-IsFile f g;
    mapped = g.mapped;
    here = Grows-new f g (slot_of bn) (slot_of_small bn h) (eq→== (slot_of bn) (slot_of bn) refl);
    others = λ k h' ne.
        Grows-same f g (slot_of k) (slot_of_small k h')
          (ne→== (slot_of bn) (slot_of k) (λ e. ne (slot_of_inj bn k e)));
    contents = λ k h' real. Grows-contents (slot_of bn) m.addr m.ip m.disk k g z h' real;
    outcome = inr (inr (z, g.real, g.was_free, g.fresh));
  }

-- A block behind the direct ones, in an indirect block that is there.
entry_at :
    {sb : SuperBlock} {ip : Dinode} {disk : Disk} (f : IsFile sb ip disk) (v : IsMapped sb disk)
    → sb.size ≤ 2 ^ 32
    → (bn a : ℕ) → ndirect ≤ bn
    → bn < maxfile
    → ip.addrs ndirect ≡ a
    → a ≢ 0
    → Finds sb bn ip disk (map_entry sb (bn - ndirect) record { disk = disk; ip = ip; addr = a })
entry_at {sb} {ip} {disk} f v size_fits bn a far small e real =
    let at : ndirect + 1 + (bn - ndirect) ≡ slot_of bn = ground arith in
    subst
      (λ (b : ℕ).
        Finds sb bn ip disk (map_entry sb (bn - ndirect) record { disk = disk; ip = ip; addr = b }))
      e
      (Maps-Finds f v bn _ small (
        subst
          (λ (s : ℕ).
            Maps sb ip disk s (
              map_entry sb (bn - ndirect) record { disk = disk; ip = ip; addr = ip.addrs ndirect }))
          at (map_entry-Maps f v (λ z. real (sym e ∙ z)) size_fits (bn - ndirect))))

-- A new indirect block, and then the block in it.
module _ {sb : SuperBlock} {ip : Dinode} {disk : Disk} (f : IsFile sb ip disk) (bn : ℕ)
    (m m' : Mapped) (g : Grows sb ip disk ndirect m.addr m.ip m.disk)
    (none : (s : ℕ) → ndirect ≤ s → slot ip disk s ≡ 0) (far : ndirect ≤ bn)
    (small : bn < maxfile) where
  same_slot : (k : ℕ) → k < maxfile → slot m.ip m.disk (slot_of k) ≡ slot ip disk (slot_of k)
  same_slot k h =
      Grows-same f g (slot_of k) (slot_of_small k h)
        (ne→== ndirect (slot_of k) (λ e. slot_of_ne k (sym e)))

  was_none : slot ip disk (slot_of bn) ≡ 0
  was_none = none (slot_of bn) (ground arith)

  grown_outcome :
      IsFile sb m'.ip m'.disk
      → slot m'.ip m'.disk (slot_of bn) ≡ m'.addr
      → ((slot m.ip m.disk (slot_of bn) ≢ 0) × (m'.addr ≡ slot m.ip m.disk (slot_of bn)))
        ⊎ ((slot m.ip m.disk (slot_of bn) ≡ 0) × (m'.addr ≡ 0) × IsFull sb m'.disk)
        ⊎ ((slot m.ip m.disk (slot_of bn) ≡ 0)
            × (m'.addr ≢ 0)
            × (used sb m.disk m'.addr ≡ false)
            × (m'.disk m'.addr ≡ zero_block))
      → ((slot ip disk (slot_of bn) ≢ 0) × (m'.addr ≡ slot ip disk (slot_of bn)))
        ⊎ ((slot ip disk (slot_of bn) ≡ 0) × (m'.addr ≡ 0) × IsFull sb m'.disk)
        ⊎ ((slot ip disk (slot_of bn) ≡ 0)
            × (m'.addr ≢ 0)
            × (used sb disk m'.addr ≡ false)
            × (m'.disk m'.addr ≡ zero_block))
  grown_outcome file here (inl (real, e)) = absurd (real (same_slot bn small ∙ was_none))
  grown_outcome file here (inr (inl (z, addr, full))) = inr (inl (was_none, addr, full))
  grown_outcome file here (inr (inr (z, real, free, fresh))) =
      let o = file.owned (slot_of bn) (slot_of_small bn small) (λ e. real (sym here ∙ e)) in
      let within : m'.addr < sb.size = subst (λ (a : ℕ). a < sb.size) here o.within in
      inr (inr (was_none, real, ground (arith, g.marks m'.addr within, free), fresh))

  grown-Finds : IsMapped sb disk → Finds sb bn m.ip m.disk m' → Finds sb bn ip disk m'
  grown-Finds v d = record {
    file = d.file;
    mapped = d.mapped;
    here = d.here;
    others = λ k h ne. d.others k h ne ∙ same_slot k h;
    contents = λ k h real.
        subst (λ (b : ℕ). m'.disk b ≡ disk b) (same_slot k h)
          (d.contents k h (λ e. real (sym (same_slot k h) ∙ e))
            ∙ subst (λ (b : ℕ). m.disk b ≡ disk b) (sym (same_slot k h))
                (Grows-contents f v ndirect m.addr m.ip m.disk k g (none ndirect (omega arith)) h
                  real));
    outcome = grown_outcome d.file d.here d.outcome;
  }

module _ {sb : SuperBlock} {ip : Dinode} {disk : Disk} (f : IsFile sb ip disk)
    (v : IsMapped sb disk) (size_fits : sb.size ≤ 2 ^ 32) where
  abbrev through : ℕ → Mapped → Mapped
  through bn o = if o.addr == 0 then o else map_entry sb (bn - ndirect) o

  no_slots : ip.addrs ndirect ≡ 0 → (s : ℕ) → ndirect ≤ s → slot ip disk s ≡ 0
  no_slots z s h = elim (Bool-cases (s == ndirect)) [
    | inl here ↦
        subst (λ (r : ℕ). slot ip disk r ≡ 0) (sym (==→eq s ndirect here))
          (slot_addr ip disk ndirect (omega arith) ∙ z)
    | inr beyond ↦ slot_none ip disk s z (ground (arith, beyond))
  ]

  through-Finds :
      (bn : ℕ)
      → ndirect ≤ bn
      → bn < maxfile
      → (o : Mapped) → Maps sb ip disk ndirect o
      → Finds sb bn ip disk (through bn o)
  through-Finds bn far small o (inl (real, e)) =
      let there : (slot ip disk ndirect == 0) ≡ false = ne→== _ 0 real in
      subst (λ (n : Mapped). Finds sb bn ip disk (through bn n)) (sym e)
        (rw there (
          entry_at f v size_fits bn (slot ip disk ndirect) far small
            (sym (slot_addr ip disk ndirect (omega arith))) real))
  through-Finds bn far small o (inr (inl (z, e, full))) =
      subst (λ (n : Mapped). Finds sb bn ip disk (through bn n)) (sym e)
        (Maps-Finds f v bn record { disk = disk; ip = ip; addr = 0 } small
          (inr (
            inl (
              no_slots (sym (slot_addr ip disk ndirect (omega arith)) ∙ z) (slot_of bn)
                  (ground arith),
              refl,
              full,
            ))))
  through-Finds bn far small o (inr (inr (z, g))) =
      let there : (o.addr == 0) ≡ false = ne→== o.addr 0 g.real in
      let f' = Grows-IsFile f g in
      let at : o.ip.addrs ndirect ≡ o.addr =
        sym (slot_addr o.ip o.disk ndirect (omega arith))
        ∙ Grows-new f g ndirect (omega arith) refl in
      rw there (
        grown-Finds f bn o (map_entry sb (bn - ndirect) o) g
          (no_slots (sym (slot_addr ip disk ndirect (omega arith)) ∙ z)) far small v
          (entry_at f' g.mapped size_fits bn o.addr far small at g.real))

  -- For a file whose blocks are its own, on a disk with a sound map of at most 2 ^ 32 blocks: `bmap` of a
  -- block number below 268 does not panic; it returns the block of the file, which is the one that it was,
  -- or none as the disk is full, or one that was free and is empty; the other blocks of the file and what they hold are
  -- kept, and the blocks of the file stay its own.
  pub bmap-Finds :
      (bn : ℕ) → bn < maxfile → (m : Mapped) × (bmap sb bn ip disk ≡ some m) × Finds sb bn ip disk m
  unfolding bmap
  bmap-Finds bn h = elim (Bool-cases (ltb bn ndirect)) [
    | inl direct ↦
        let at : slot_of bn ≡ bn = rw direct refl in
        (
          map_addr sb bn ip disk,
          rw direct refl,
          Maps-Finds f v bn (map_addr sb bn ip disk) h (
              subst (λ (s : ℕ). Maps sb ip disk s (map_addr sb bn ip disk)) (sym at)
                (map_addr-Maps f v bn (ground (arith, direct)))),
        )
    | inr beyond ↦
        let in_range : ltb (bn - ndirect) nindirect ≡ true = ground arith in
        (
          through bn (map_addr sb ndirect ip disk),
          rw (beyond, in_range) refl,
          through-Finds bn (ground (arith, beyond)) h (map_addr sb ndirect ip disk)
              (map_addr-Maps f v ndirect (omega arith)),
        )
  ]
