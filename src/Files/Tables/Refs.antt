-- ===== src/Files/Tables/Refs.antt =====
-- The count of references of a vnode against the entries that refer to it.
use nandfs.Base.{
  ℕ, zero, suc, ◌+◌, ◌<◌, ◌≤◌, ◌%◌, ◌^◌, ◌≡◌, refl, ap, inl, inr, Bool, true, false, arith, ◌==◌,
  if◌then◌else◌, Bool-cases, ==_iff, update,
}
use nandfs.Files.Tables.{
  Tables, OpenFile, vnode_empty, ino_num_empty, fs_max_vnodes, fs_max_open_files, first_index,
  set_fentry,
}

-- The number of entries below `n` that refer to the vnode.
unfoldable pub refs : ℕ → (ℕ → OpenFile) → ℕ → ℕ
refs zero files v = 0
refs (suc n) files v = (if (files n).vnode == v then 1 else 0) + refs n files v

-- Every entry is empty or refers to a vnode; a vnode counts its entries; and it has an inode number
-- as long as there are any.
pub record IsTables (t : Tables) : Type 0 where
  pub real :
      (fd : ℕ)
      → fd < fs_max_open_files
      → ((t.open_files fd).vnode == vnode_empty) ≡ false
      → (t.open_files fd).vnode < fs_max_vnodes
  pub counted :
      (v : ℕ)
      → v < fs_max_vnodes
      → (t.vnodes v).n_references ≡ refs fs_max_open_files t.open_files v
  pub used :
      (v : ℕ)
      → v < fs_max_vnodes
      → ((t.vnodes v).ino_num == ino_num_empty) ≡ ((t.vnodes v).n_references == 0)

pub refs-le : (n : ℕ) (files : ℕ → OpenFile) (v : ℕ) → refs n files v ≤ n
unfolding refs
refs-le zero files v = omega arith
refs-le (suc n) files v = ground (arith, refs-le n files v)

refs_above :
    (n : ℕ) (files : ℕ → OpenFile) (fd : ℕ) (f : OpenFile) (v : ℕ)
    → n ≤ fd
    → refs n (update files fd f) v ≡ refs n files v
unfolding refs update
refs_above zero files fd f v h = refl
refs_above (suc n) files fd f v h =
    let other : (n == fd) ≡ false = ground arith in
    rw (other, refs_above n files fd f v (omega arith)) refl

-- An assignment to an entry moves a reference from the old vnode to the new one.
pub refs-update :
    (n : ℕ) (files : ℕ → OpenFile) (fd : ℕ) (f : OpenFile) (v : ℕ)
    → fd < n
    → refs n (update files fd f) v + (if (files fd).vnode == v then 1 else 0)
      ≡ refs n files v + (if f.vnode == v then 1 else 0)
unfolding refs update
refs-update zero files fd f v l = absurd (omega arith)
refs-update (suc n) files fd f v l = elim (Bool-cases (n == fd)) [
  | inl e ↦
      let same : n ≡ fd = (==_iff n fd).0 e in
      let rest = refs_above n files fd f v (omega arith) in
      let here : (files n).vnode ≡ (files fd).vnode = ap (λ (x : ℕ). (files x).vnode) same in
      rw (e, rest, here) (omega arith)
  | inr e ↦ rw e (omega (arith, refs-update n files fd f v (ground arith)))
]

-- What first_index gives: -1, or an index that passes the test.
pub first_index_lem :
    (p : ℕ → Bool) (n i : ℕ)
    → i + n < 2 ^ 31
    → (first_index p n i == 0xffffffff) ≡ false
    → (first_index p n i < i + n) × (p (first_index p n i) ≡ true)
unfolding first_index
first_index_lem p zero i l h = absurd (cc)
first_index_lem p (suc n) i l h = elim (Bool-cases (p i)) [
  | inl e ↦ rw e (omega arith, e)
  | inr e ↦
      let (k, t) = first_index_lem p n (i + 1) (omega arith) (rw e at h) in rw e (omega arith, t)
]

inc_count :
    (n k : ℕ) → n ≡ k → k ≤ 8 → ((n + 1) % 2 ^ 32 ≡ k + 1) × (((n + 1) % 2 ^ 32 == 0) ≡ false)
inc_count n k e l = (omega arith, ground arith)

-- A new entry for a vnode, which counts it.
pub set_fentry-IsTables :
    {t : Tables} (current_user fd flags offset vnode_idx f_type ino_num : ℕ)
    → IsTables t
    → fd < fs_max_open_files
    → (t.open_files fd).vnode ≡ vnode_empty
    → vnode_idx < fs_max_vnodes
    → (ino_num == ino_num_empty) ≡ false
    → IsTables (set_fentry t current_user fd flags offset vnode_idx f_type ino_num)
unfolding set_fentry update
set_fentry-IsTables {t} current_user fd flags offset vnode_idx f_type ino_num v l free lv ino =
    let f : OpenFile = record {
      flags = flags;
      offset = offset;
      uid = current_user;
      vnode = vnode_idx;
      f_type = f_type;
    } in
    let few = inc_count _ _ (v.counted vnode_idx lv) (refs-le 8 t.open_files vnode_idx) in
    record {
      real = λ d k n. elim (Bool-cases (d == fd)) [
        | inl e ↦ rw e lv
        | inr e ↦ rw e (v.real d k (rw e at n))
      ];
      counted = λ a k.
          let moved = refs-update 8 t.open_files fd f a l in
          let was = v.counted a k in
          let off : ((t.open_files fd).vnode == a) ≡ false = ground arith in
          elim (Bool-cases (a == vnode_idx)) [
            | inl e ↦ let same : a ≡ vnode_idx = (==_iff a vnode_idx).0 e in rw e (ground arith)
            | inr e ↦ rw e (ground arith)
          ];
      used = λ a k. elim (Bool-cases (a == vnode_idx)) [
        | inl e ↦ rw (e, ino, few.1) refl
        | inr e ↦ rw e (v.used a k)
      ];
    }
