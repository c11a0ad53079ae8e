-- ===== src/Kernel/Fs/Maps/Grows.antt =====
-- The two steps of bmap: a slot of the inode and one of the indirect block.
use native.Mathlib.Decide.{ℕ_discrete}
use listlib_and_system_calls.Common.{
  eq→==, ne→==, ==→eq, ==→ne, update-if, ℕ, ◌+◌, ◌-◌, ◌*◌, ◌<◌, ◌≤◌, ◌≡◌, ◌≢◌, ◌⊎◌, inl, inr, refl,
  true, false, leb, ◌==◌, if◌then◌else◌, update, update_self, update_ne, arith, ap, ◌∙◌, sym,
  Bool-cases, subst,
}
use listlib_and_system_calls.Kernel.Fs.{Block, Disk, SuperBlock}
use listlib_and_system_calls.Kernel.Fs.Bitmap.{balloc}
use listlib_and_system_calls.Kernel.Fs.Bitmap.Marks.{used}
use listlib_and_system_calls.Kernel.Fs.Bitmap.Allocates.{IsMapped, Allocated, balloc-Allocates}
use listlib_and_system_calls.Kernel.Fs.Dinodes.{Dinode, get32}
use listlib_and_system_calls.Kernel.Fs.Maps.{ndirect, set_addr, Mapped, map_addr}
use listlib_and_system_calls.Kernel.Fs.Maps.Slots.{slot, Owned, IsFile, Grows}

-- The disk has no free block.
abbrev pub IsFull : SuperBlock → Disk → Type 0
IsFull sb disk = (c : ℕ) → c < sb.size → used sb disk c ≡ true

-- The block of a slot: it was there, or there is none and no room, or it is new.
abbrev pub Maps : SuperBlock → Dinode → Disk → ℕ → Mapped → Type 0
Maps sb ip disk s m =
    ((slot ip disk s ≢ 0) × (m ≡ record { disk = disk; ip = ip; addr = slot ip disk s }))
    ⊎ ((slot ip disk s ≡ 0) × (m ≡ record { disk = disk; ip = ip; addr = 0 }) × IsFull sb disk)
    ⊎ ((slot ip disk s ≡ 0) × Grows sb ip disk s m.addr m.ip m.disk)

pub slot_addr : (ip : Dinode) (disk : Disk) (i : ℕ) → i ≤ ndirect → slot ip disk i ≡ ip.addrs i
unfolding slot
slot_addr ip disk i h = let e : leb i ndirect ≡ true = ground arith in rw e refl

pub slot_none :
    (ip : Dinode) (disk : Disk) (t : ℕ) → ip.addrs ndirect ≡ 0 → ndirect < t → slot ip disk t ≡ 0
unfolding slot
slot_none ip disk t z h =
    let e : leb t ndirect ≡ false = ground arith in
    let none : (ip.addrs ndirect == 0) ≡ true = ground (arith, z) in rw (e, none) refl

pub slot_entry :
    (ip : Dinode) (disk : Disk) (t : ℕ)
    → ip.addrs ndirect ≢ 0
    → ndirect < t
    → slot ip disk t ≡ get32 (disk (ip.addrs ndirect)) (4 * (t - (ndirect + 1)))
unfolding slot
slot_entry ip disk t real h =
    let e : leb t ndirect ≡ false = ground arith in
    let there : (ip.addrs ndirect == 0) ≡ false = ground (arith, real) in rw (e, there) refl

module _ {sb : SuperBlock} {ip : Dinode} {disk : Disk} (f : IsFile sb ip disk)
    (v : IsMapped sb disk) where
  pub new_Owned : {after : Disk} {a : ℕ} → Allocated sb disk after a → Owned sb after a
  new_Owned al = record {
    within = al.within;
    marked = al.marked _ al.within ∙ (ground arith);
    off_map = λ c small e.
        absurd (cc (al.was_free, subst (λ b. used sb disk b ≡ true) (sym e) (v.map_used c small)));
  }

  -- The indirect block is as it was.
  pub kept_indirect :
      {after : Disk} {a : ℕ}
      → Allocated sb disk after a
      → ip.addrs ndirect ≢ 0
      → after (ip.addrs ndirect) ≡ disk (ip.addrs ndirect)
  kept_indirect al real =
      let e = slot_addr ip disk ndirect (omega arith) in
      let o = f.owned ndirect (omega arith) (λ z. real (sym e ∙ z)) in
      al.kept (ip.addrs ndirect)
        (λ same. absurd (cc (al.was_free, subst (λ b. used sb disk b ≡ true) (e ∙ same) o.marked)))
        (λ same. o.off_map _ al.within (e ∙ same))

  set_addr_slots :
      (i a : ℕ) (after : Disk)
      → i ≤ ndirect
      → ip.addrs i ≡ 0
      → Allocated sb disk after a
      → (t : ℕ) → (leb t ndirect ≡ true) ⊎ (leb t ndirect ≡ false)
      → slot (set_addr i a ip) after t ≡ (if i == t then a else slot ip disk t)
  set_addr_slots i a after h none al t (inl low) =
      let small : t ≤ ndirect = ground (arith, low) in
      slot_addr (set_addr i a ip) after t small
      ∙ update-if ip.addrs i t a
      ∙ ap (λ b. if i == t then a else b) (sym (slot_addr ip disk t small))
  set_addr_slots i a after h none al t (inr high) =
      let big : ndirect < t = ground (arith, high) in
      let other : (i == t) ≡ false = ground arith in
      elim (ℕ_discrete i ndirect) [
        | yes e ↦
            let here : update ip.addrs i a ndirect ≡ a =
              subst (λ j. update ip.addrs i a j ≡ a) e (update_self ip.addrs i a) in
            let gone : ip.addrs ndirect ≡ 0 = subst (λ j. ip.addrs j ≡ 0) e none in
            slot_entry (set_addr i a ip) after t (λ z. al.real (sym here ∙ z)) big
            ∙ ap (λ b. get32 (after b) (4 * (t - (ndirect + 1)))) here
            ∙ ap (λ (block : Block). get32 block (4 * (t - (ndirect + 1)))) al.empty
            ∙ sym (slot_none ip disk t gone big)
            ∙ rw other refl
        | no ne ↦
            let same : update ip.addrs i a ndirect ≡ ip.addrs ndirect =
              update_ne ip.addrs i ndirect a ne in
            elim (ℕ_discrete (ip.addrs ndirect) 0) [
              | yes z ↦
                  slot_none (set_addr i a ip) after t (same ∙ z) big
                  ∙ sym (slot_none ip disk t z big)
                  ∙ rw other refl
              | no real ↦
                  slot_entry (set_addr i a ip) after t (λ z. real (sym same ∙ z)) big
                  ∙ ap (λ b. get32 (after b) (4 * (t - (ndirect + 1)))) same
                  ∙ ap (λ (block : Block). get32 block (4 * (t - (ndirect + 1))))
                      (kept_indirect al real)
                  ∙ sym (slot_entry ip disk t real big)
                  ∙ rw other refl
            ]
      ]

  set_addr-Grows :
      (i a : ℕ) (after : Disk)
      → i ≤ ndirect
      → ip.addrs i ≡ 0
      → Allocated sb disk after a
      → Grows sb ip disk i a (set_addr i a ip) after
  set_addr-Grows i a after h none al = record {
    real = al.real;
    was_free = al.was_free;
    slots = λ t small. set_addr_slots i a after h none al t (Bool-cases (leb t ndirect));
    marks = al.marked;
    own = new_Owned al;
    mapped = al.mapped;
    fresh = al.empty;
    kept = λ b ne off other. al.kept b ne (off a al.within);
  }

  -- A slot of the inode.
  pub map_addr-Maps : (i : ℕ) → i ≤ ndirect → Maps sb ip disk i (map_addr sb i ip disk)
  unfolding map_addr
  map_addr-Maps i h = elim (Bool-cases (ip.addrs i == 0)) [
    | inr there ↦ inl (λ z. absurd (==→ne (ip.addrs i) 0 there (sym e ∙ z)), rw (there, e) refl)
    | inl none ↦
        let z : ip.addrs i ≡ 0 = ==→eq (ip.addrs i) 0 none in
        elim (balloc-Allocates sb disk v) [
          | inl al ↦
              let real : ((balloc sb disk).1 == 0) ≡ false = ne→== (balloc sb disk).1 0 al.real in
              inr (
                inr (
                  e ∙ z,
                  rw (none, real) (set_addr-Grows i (balloc sb disk).1 (balloc sb disk).0 h z al),
                ))
          | inr (zero_addr, same, full) ↦
              let no_addr : ((balloc sb disk).1 == 0) ≡ true =
                eq→== (balloc sb disk).1 0 zero_addr in
              inr (
                inl (
                  e ∙ z,
                  rw (none, no_addr)
                      (ap (λ (d : Disk). record { disk = d; ip = ip; addr = 0 }) same),
                  full,
                ))
        ]
  ]
    where
      e : slot ip disk i ≡ ip.addrs i
      e = slot_addr ip disk i h
