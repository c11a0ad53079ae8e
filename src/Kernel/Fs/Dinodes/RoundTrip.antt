-- ===== src/Kernel/Fs/Dinodes/RoundTrip.antt =====
-- An inode that is written is read back, and no other one changes.
use native.Mathlib.Decide.{ℕ_discrete}
use listlib_and_system_calls.Common.{
  ℕ, ◌+◌, ◌-◌, ◌*◌, ◌/◌, ◌%◌, ◌^◌, ◌<◌, ◌≤◌, ◌≡◌, ◌≢◌, ◌⊎◌, inl, inr, refl, true, false, ltb, leb,
  ◌&&◌, update, update_self, update_ne, arith, ap, ◌∙◌, sym, Bool-cases, subst,
}
use listlib_and_system_calls.Kernel.Fs.{Block, Disk, SuperBlock}
use listlib_and_system_calls.Kernel.Fs.Dinodes.{
  Dinode, ipb, iblock, byte_of, dinode_byte, get16, get32, load_dinode, store_dinode, read_dinode,
  write_dinode,
}

-- The fields fit their sizes.
pub record Fits (d : Dinode) : Type 0 where
  pub type_fits : d.type < 2 ^ 16
  pub major_fits : d.major < 2 ^ 16
  pub minor_fits : d.minor < 2 ^ 16
  pub nlink_fits : d.nlink < 2 ^ 16
  pub size_fits : d.size < 2 ^ 32
  pub addr_fits : (i : ℕ) → i < 13 → d.addrs i < 2 ^ 32

-- The same fields.
pub record SameFields (d d' : Dinode) : Type 0 where
  pub same_type : d.type ≡ d'.type
  pub same_major : d.major ≡ d'.major
  pub same_minor : d.minor ≡ d'.minor
  pub same_nlink : d.nlink ≡ d'.nlink
  pub same_size : d.size ≡ d'.size
  pub same_addr : (i : ℕ) → i < 13 → d.addrs i ≡ d'.addrs i

module _ (d : Dinode) (off : ℕ) (block : Block) where
  stored_byte : (k : ℕ) → k < 64 → store_dinode d off block (off + k) ≡ dinode_byte d k
  unfolding store_dinode
  stored_byte k h =
      let inside : (leb off (off + k) && ltb (off + k) (off + 64)) ≡ true = ground arith in
      let at : off + k - off ≡ k = omega arith in rw (inside, at) refl

  stored_at : (j k : ℕ) → off + k ≡ j → k < 64 → store_dinode d off block j ≡ dinode_byte d k
  stored_at j k e h = subst (λ i. store_dinode d off block i ≡ dinode_byte d k) e (stored_byte k h)

  -- Two bytes and four bytes of the inode.
  stored16 :
      (j k : ℕ)
      → off + k ≡ j
      → k + 1 < 64
      → get16 (store_dinode d off block) j ≡ dinode_byte d k + 256 * dinode_byte d (k + 1)
  stored16 j k e h =
      rw (stored_at j k e (omega arith), stored_at (j + 1) (k + 1) (omega arith) h) refl

  stored32 :
      (j k : ℕ)
      → off + k ≡ j
      → k + 3 < 64
      → get32 (store_dinode d off block) j
        ≡ dinode_byte d k
          + 256 * dinode_byte d (k + 1)
          + 65536 * dinode_byte d (k + 2)
          + 16777216 * dinode_byte d (k + 3)
  stored32 j k e h =
      rw
        (
          stored_at j k e (omega arith),
          stored_at (j + 1) (k + 1) (omega arith) (omega arith),
          stored_at (j + 2) (k + 2) (omega arith) (omega arith),
          stored_at (j + 3) (k + 3) (omega arith) h,
        )
        refl

  addr_byte : (i j : ℕ) → j < 4 → dinode_byte d (12 + 4 * i + j) ≡ byte_of (d.addrs i) j
  unfolding dinode_byte
  addr_byte i j h =
      let e : (12 + 4 * i + j - 12) / 4 ≡ i = omega arith in
      let e' : (12 + 4 * i + j) % 4 ≡ j = omega arith in
      let f : ltb (12 + 4 * i + j) 2 ≡ false = ground arith in
      let f4 : ltb (12 + 4 * i + j) 4 ≡ false = ground arith in
      let f6 : ltb (12 + 4 * i + j) 6 ≡ false = ground arith in
      let f8 : ltb (12 + 4 * i + j) 8 ≡ false = ground arith in
      let f12 : ltb (12 + 4 * i + j) 12 ≡ false = ground arith in
      rw (f, f4, f6, f8, f12, e, e') refl

  addr_0 : (i : ℕ) → dinode_byte d (12 + 4 * i) ≡ d.addrs i % 256
  addr_0 i =
      let e : 12 + 4 * i + 0 ≡ 12 + 4 * i = omega arith in
      subst (λ k. dinode_byte d k ≡ d.addrs i % 256) e (addr_byte i 0 (omega arith))

  load-store_dinode : Fits d → SameFields (load_dinode (store_dinode d off block) off) d
  unfolding load_dinode dinode_byte
  load-store_dinode fits = record {
    same_type = stored16 off 0 (omega arith) (omega arith) ∙ (omega (arith, fits.type_fits));
    same_major = stored16 (off + 2) 2 refl (omega arith) ∙ (omega (arith, fits.major_fits));
    same_minor = stored16 (off + 4) 4 refl (omega arith) ∙ (omega (arith, fits.minor_fits));
    same_nlink = stored16 (off + 6) 6 refl (omega arith) ∙ (omega (arith, fits.nlink_fits));
    same_size = stored32 (off + 8) 8 refl (omega arith) ∙ (omega (arith, fits.size_fits));
    same_addr = λ i h.
        stored32 (off + 12 + 4 * i) (12 + 4 * i) (omega arith) (omega arith)
        ∙ omega (
          arith,
          addr_0 i,
          addr_byte i 1 (omega arith),
          addr_byte i 2 (omega arith),
          addr_byte i 3 (omega arith),
          fits.addr_fits i h,
        );
  }

  -- Bytes off the inode stay.
  store_dinode-off : (j : ℕ) → (j < off) ⊎ (off + 64 ≤ j) → store_dinode d off block j ≡ block j
  unfolding store_dinode
  store_dinode-off j (inl h) =
      let e : (leb off j && ltb j (off + 64)) ≡ false = ground arith in rw e refl
  store_dinode-off j (inr h) =
      let e : (leb off j && ltb j (off + 64)) ≡ false = ground arith in rw e refl

-- A block agrees with another one where an inode stands.
same_load :
    (block block' : Block) (off : ℕ)
    → ((k : ℕ) → k < 64 → block (off + k) ≡ block' (off + k))
    → SameFields (load_dinode block off) (load_dinode block' off)
unfolding load_dinode
same_load block block' off same = record {
  same_type =
      omega (arith, at off 0 (omega arith) (omega arith), at (off + 1) 1 refl (omega arith));
  same_major =
      omega
        (arith, at (off + 2) 2 refl (omega arith), at (off + 2 + 1) 3 (omega arith) (omega arith));
  same_minor =
      omega
        (arith, at (off + 4) 4 refl (omega arith), at (off + 4 + 1) 5 (omega arith) (omega arith));
  same_nlink =
      omega
        (arith, at (off + 6) 6 refl (omega arith), at (off + 6 + 1) 7 (omega arith) (omega arith));
  same_size = word (off + 8) 8 refl (omega arith);
  same_addr = λ i h. word (off + 12 + 4 * i) (12 + 4 * i) (omega arith) (omega arith);
}
  where
    at : (j k : ℕ) → off + k ≡ j → k < 64 → block j ≡ block' j
    at j k e h = subst (λ i. block i ≡ block' i) e (same k h)

    word : (j k : ℕ) → off + k ≡ j → k + 3 < 64 → get32 block j ≡ get32 block' j
    word j k e h = omega (
      arith,
      at j k e (omega arith),
      at (j + 1) (k + 1) (omega arith) (omega arith),
      at (j + 2) (k + 2) (omega arith) (omega arith),
      at (j + 3) (k + 3) (omega arith) h,
    )

-- For an inode whose fields fit their sizes: behind `iupdate`, `ilock` reads the same fields from
-- the disk, and for every other inode number the same as before.
pub read-write_dinode :
    (sb : SuperBlock) (inum other : ℕ) (d : Dinode) (disk : Disk)
    → Fits d
    → inum ≢ other
    → SameFields (read_dinode sb inum (write_dinode sb inum d disk)) d
      × SameFields (read_dinode sb other (write_dinode sb inum d disk)) (read_dinode sb other disk)
unfolding read_dinode write_dinode
read-write_dinode sb inum other d disk fits ne = (same, apart)
  where
    off : ℕ
    off = inum % ipb * 64

    after : Disk
    after = update disk (iblock inum sb) (store_dinode d off (disk (iblock inum sb)))

    same : SameFields (load_dinode (after (iblock inum sb)) off) d
    same =
        subst (λ (block : Block). SameFields (load_dinode block off) d)
          (sym (update_self disk (iblock inum sb) (store_dinode d off (disk (iblock inum sb)))))
          (load-store_dinode d off (disk (iblock inum sb)) fits)

    apart :
        SameFields
          (load_dinode (after (iblock other sb)) (other % ipb * 64))
          (load_dinode (disk (iblock other sb)) (other % ipb * 64))
    apart =
        same_load (after (iblock other sb)) (disk (iblock other sb)) (other % ipb * 64)
          (λ k h. byte k h (ℕ_discrete (iblock inum sb) (iblock other sb)))
      where
        beside :
            (k : ℕ)
            → k < 64
            → iblock inum sb ≡ iblock other sb
            → (other % ipb * 64 + k < off) ⊎ (off + 64 ≤ other % ipb * 64 + k)
        beside k h e = elim (Bool-cases (ltb (inum % ipb) (other % ipb))) [
          | inl less ↦ inr (ground (arith, less))
          | inr more ↦ inl (ground (arith, more, e, ne))
        ]

        byte :
            (k : ℕ)
            → k < 64
            → Dec (iblock inum sb ≡ iblock other sb)
            → after (iblock other sb) (other % ipb * 64 + k)
              ≡ disk (iblock other sb) (other % ipb * 64 + k)
        byte k h (yes e) =
            subst (λ (blk : ℕ). after blk (other % ipb * 64 + k) ≡ disk blk (other % ipb * 64 + k))
              e
              (ap (λ (block : Block). block (other % ipb * 64 + k))
                  (update_self disk (iblock inum sb) _)
                ∙ store_dinode-off d off (disk (iblock inum sb)) (other % ipb * 64 + k)
                    (beside k h e))
        byte k h (no n) =
            ap (λ (block : Block). block (other % ipb * 64 + k))
              (update_ne disk (iblock inum sb) (iblock other sb) _ n)
