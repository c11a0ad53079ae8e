-- ===== src/Kernel/Fs/Maps/Entries.antt =====
-- A slot of the indirect block.
use listlib_and_system_calls.Common.{
  ℕ, ◌+◌, ◌-◌, ◌*◌, ◌/◌, ◌%◌, ◌^◌, ◌<◌, ◌≤◌, ◌≡◌, ◌≢◌, ◌⊎◌, inl, inr, refl, true, false, ltb, leb,
  ◌==◌, ◌&&◌, if◌then◌else◌, update, update_self, update_ne, arith, ap, ◌∙◌, sym, Bool-cases, subst,
  ne→==, eq→==, ==→ne, ==→eq,
}
use listlib_and_system_calls.Kernel.Fs.{Block, Disk, SuperBlock, bblock, bpb}
use listlib_and_system_calls.Kernel.Fs.Bits.{bit_set}
use listlib_and_system_calls.Kernel.Fs.Bitmap.{balloc}
use listlib_and_system_calls.Kernel.Fs.Bitmap.Marks.{used, update-AreBytes}
use listlib_and_system_calls.Kernel.Fs.Bitmap.Allocates.{IsMapped, Allocated, balloc-Allocates}
use listlib_and_system_calls.Kernel.Fs.Dinodes.{Dinode, get32, byte_of}
use listlib_and_system_calls.Kernel.Fs.Maps.{ndirect, store32, map_entry}
use listlib_and_system_calls.Kernel.Fs.Maps.Slots.{slot, Owned, IsFile, Grows}
use listlib_and_system_calls.Kernel.Fs.Maps.Grows.{
  Maps, slot_addr, slot_entry, new_Owned, kept_indirect,
}

module _ (off v : ℕ) (block : Block) where
  store32-in : (p k : ℕ) → off + k ≡ p → k < 4 → store32 off v block p ≡ byte_of v k
  unfolding store32
  store32-in p k e h =
      let inside : (leb off (off + k) && ltb (off + k) (off + 4)) ≡ true = ground arith in
      let at : off + k - off ≡ k = omega arith in rw (← e, inside, at) refl

  store32-off : (p : ℕ) → (p < off) ⊎ (off + 4 ≤ p) → store32 off v block p ≡ block p
  unfolding store32
  store32-off p (inl h) = let e : (leb off p && ltb p (off + 4)) ≡ false = ground arith in rw e refl
  store32-off p (inr h) = let e : (leb off p && ltb p (off + 4)) ≡ false = ground arith in rw e refl

-- A number that is stored in a block is loaded again, and those beside it are as before.
get32-store32 :
    (i j v : ℕ) (block : Block)
    → v < 2 ^ 32
    → get32 (store32 (4 * i) v block) (4 * j) ≡ (if i == j then v else get32 block (4 * j))
get32-store32 i j v block small = elim (Bool-cases (i == j)) [
  | inl same ↦
      let e : i ≡ j = ==→eq i j same in
      rw same (
        omega (
          arith,
          store32-in (4 * i) v block (4 * j) 0 (omega arith) (omega arith),
          store32-in (4 * i) v block (4 * j + 1) 1 (omega arith) (omega arith),
          store32-in (4 * i) v block (4 * j + 2) 2 (omega arith) (omega arith),
          store32-in (4 * i) v block (4 * j + 3) 3 (omega arith) (omega arith),
        ))
  | inr other ↦ rw other (
      omega (
        arith,
        store32-off (4 * i) v block (4 * j) (beside other 0 (omega arith) (4 * j) (omega arith)),
        store32-off (4 * i) v block (4 * j + 1) (beside other 1 (omega arith) (4 * j + 1) refl),
        store32-off (4 * i) v block (4 * j + 2) (beside other 2 (omega arith) (4 * j + 2) refl),
        store32-off (4 * i) v block (4 * j + 3) (beside other 3 (omega arith) (4 * j + 3) refl),
      ))
]
  where
    beside :
        (i == j) ≡ false → (k : ℕ) → k < 4 → (p : ℕ) → 4 * j + k ≡ p → (p < 4 * i) ⊎ (4 * i + 4 ≤ p)
    beside ne k h p e = elim (Bool-cases (ltb i j)) [
      | inl less ↦ inr (ground (arith, less))
      | inr more ↦ inl (ground (arith, more, ne))
    ]

-- The marks of the map do not stand in another block.
used_off :
    (sb : SuperBlock) (disk : Disk) (x c : ℕ) (block : Block)
    → x ≢ bblock c sb
    → used sb (update disk x block) c ≡ used sb disk c
used_off sb disk x c block ne =
    ap (λ (b : Block). bit_set (b (c % bpb / 8)) (c % bpb % 8))
      (update_ne disk x (bblock c sb) block ne)

byte_of_small : (v k : ℕ) → byte_of v k < 256
byte_of_small v k = ground arith

store32_bytes :
    (off v : ℕ) (block : Block) → ((p : ℕ) → block p < 256) → (p : ℕ) → store32 off v block p < 256
unfolding store32
store32_bytes off v block bytes p = elim (Bool-cases (leb off p && ltb p (off + 4))) [
  | inl in_entry ↦ rw in_entry (byte_of_small v (p - off))
  | inr off_entry ↦ rw off_entry (bytes p)
]

module _ {sb : SuperBlock} {ip : Dinode} {disk : Disk} (f : IsFile sb ip disk)
    (v : IsMapped sb disk) (real : ip.addrs ndirect ≢ 0) (small : sb.size ≤ 2 ^ 32) where
  indirect_Owned : Owned sb disk (ip.addrs ndirect)
  indirect_Owned =
      let e = slot_addr ip disk ndirect (omega arith) in
      subst (λ b. Owned sb disk b) e (f.owned ndirect (omega arith) (λ z. real (sym e ∙ z)))

  abbrev with_entry : ℕ → ℕ → Disk → Disk
  with_entry bn a after =
      update after (ip.addrs ndirect) (store32 (4 * bn) a (after (ip.addrs ndirect)))

  entry_used :
      (bn a : ℕ) (after : Disk) (c : ℕ)
      → c < sb.size
      → used sb (with_entry bn a after) c ≡ used sb after c
  entry_used bn a after c h = used_off sb after (ip.addrs ndirect) c _ (indirect_Owned.off_map c h)

  entry_IsMapped :
      (bn a : ℕ) (after : Disk)
      → 0 < sb.size
      → IsMapped sb after
      → IsMapped sb (with_entry bn a after)
  entry_IsMapped bn a after some_size m = record {
    bytes =
        update-AreBytes after (ip.addrs ndirect) _ m.bytes
          (store32_bytes (4 * bn) a (after (ip.addrs ndirect)) (m.bytes (ip.addrs ndirect)));
    boot_used = entry_used bn a after 0 some_size ∙ m.boot_used;
    map_within = m.map_within;
    map_used = λ c h. entry_used bn a after (bblock c sb) (m.map_within c h) ∙ m.map_used c h;
  }

  entry_slots :
      (bn a : ℕ) (after : Disk)
      → Allocated sb disk after a
      → (t : ℕ) → (leb t ndirect ≡ true) ⊎ (leb t ndirect ≡ false)
      → slot ip (with_entry bn a after) t ≡ (if ndirect + 1 + bn == t then a else slot ip disk t)
  entry_slots bn a after al t (inl low) =
      let h : t ≤ ndirect = ground (arith, low) in
      let other : (ndirect + 1 + bn == t) ≡ false = ground arith in
      slot_addr ip (with_entry bn a after) t h ∙ sym (slot_addr ip disk t h) ∙ rw other refl
  entry_slots bn a after al t (inr high) =
      let h : ndirect < t = ground (arith, high) in
      let e : (bn == t - (ndirect + 1)) ≡ (ndirect + 1 + bn == t) = ground arith in
      slot_entry ip (with_entry bn a after) t real h
      ∙ ap (λ (block : Block). get32 block (4 * (t - (ndirect + 1))))
          (update_self after (ip.addrs ndirect) (store32 (4 * bn) a (after (ip.addrs ndirect))))
      ∙ get32-store32 bn (t - (ndirect + 1)) a (after (ip.addrs ndirect)) (omega (arith, al.within))
      ∙ ap (λ b. if b then a else get32 (after (ip.addrs ndirect)) (4 * (t - (ndirect + 1)))) e
      ∙ ap
          (λ (block : Block).
            if ndirect + 1 + bn == t then a else get32 block (4 * (t - (ndirect + 1))))
          (kept_indirect f v al real)
      ∙ ap (λ b. if ndirect + 1 + bn == t then a else b) (sym (slot_entry ip disk t real h))

  entry-Grows :
      (bn a : ℕ) (after : Disk)
      → Allocated sb disk after a
      → Grows sb ip disk (ndirect + 1 + bn) a ip (with_entry bn a after)
  entry-Grows bn a after al =
      let o = new_Owned f v al in
      record {
        real = al.real;
        was_free = al.was_free;
        slots = λ t h. entry_slots bn a after al t (Bool-cases (leb t ndirect));
        marks = λ c h. entry_used bn a after c h ∙ al.marked c h;
        own = record {
          within = o.within;
          marked = entry_used bn a after a o.within ∙ o.marked;
          off_map = o.off_map;
        };
        mapped = entry_IsMapped bn a after (omega (arith, o.within)) al.mapped;
        fresh =
            update_ne after (ip.addrs ndirect) a _ (λ e.
              absurd (cc (al.was_free, subst (λ b. used sb disk b ≡ true) e indirect_Owned.marked)))
            ∙ al.empty;
        kept = λ b ne off other.
            update_ne after (ip.addrs ndirect) b _ (λ e. other (sym e))
            ∙ al.kept b ne (off a al.within);
      }

  pub map_entry-Maps :
      (bn : ℕ)
      → Maps sb ip disk
          (ndirect + 1 + bn)
          (map_entry sb bn record { disk = disk; ip = ip; addr = ip.addrs ndirect })
  unfolding map_entry
  map_entry-Maps bn = elim (Bool-cases (get32 (disk (ip.addrs ndirect)) (4 * bn) == 0)) [
    | inr there ↦ inl (λ z. absurd (==→ne _ 0 there (sym e ∙ z)), rw (there, e) refl)
    | inl none ↦
        let z = ==→eq (get32 (disk (ip.addrs ndirect)) (4 * bn)) 0 none in
        elim (balloc-Allocates sb disk v) [
          | inl al ↦
              let fits : ((balloc sb disk).1 == 0) ≡ false = ne→== (balloc sb disk).1 0 al.real in
              inr (
                inr (
                  e ∙ z,
                  rw (none, fits) (entry-Grows bn (balloc sb disk).1 (balloc sb disk).0 al),
                ))
          | inr (zero_addr, same, full) ↦
              let no_addr : ((balloc sb disk).1 == 0) ≡ true =
                eq→== (balloc sb disk).1 0 zero_addr in
              inr (
                inl (
                  e ∙ z,
                  rw (none, no_addr)
                      (ap (λ (d : Disk). record { disk = d; ip = ip; addr = 0 }) same),
                  full,
                ))
        ]
  ]
    where
      e : slot ip disk (ndirect + 1 + bn) ≡ get32 (disk (ip.addrs ndirect)) (4 * bn)
      e =
          let at : ndirect + 1 + bn - (ndirect + 1) ≡ bn = omega arith in
          slot_entry ip disk (ndirect + 1 + bn) real (omega arith)
          ∙ ap (λ i. get32 (disk (ip.addrs ndirect)) (4 * i)) at
