-- ===== src/Transactions/Vot/Room.antt =====
-- The votes buffer of a transaction that has room left.
use nandfs.Base.{
  ℕ, zero, suc, ◌+◌, ◌%◌, subst, ◌<◌, ◌≤◌, ◌≡◌, ◌^◌, inl, inr, refl, sym, ap, ◌∙◌, Bool, true,
  false, ◌||◌, ◌==◌, update, update_self, update_ne, arith, Bool-cases, ==_iff,
}
use nandfs.Addr.{LogAddr, IsBytes, compare_addr, copy_logical_address}
use nandfs.Addr.Fields.{copy_logical_address_lem}
use nandfs.Cache.State.{Block}
use nandfs.World.{Transaction}
use nandfs.Transactions.Write.{any_entry}
use nandfs.Transactions.Vot.{has_vot, add_vot}

-- The offset is inside the block, and the votes below it are for different pages.
pub record IsVotes (entries : ℕ) (t : Transaction) : Type 0 where
  pub room : t.vots_buf_offset < entries
  pub distinct :
      (i j : ℕ) → i < j → j < t.vots_buf_offset → compare_addr (t.vots_buf i) (t.vots_buf j) ≡ false
  pub bytes : (i : ℕ) → IsBytes (t.vots_buf i)

module _ (p : LogAddr → Bool) where
  any_snoc :
      (n : ℕ) (f : Block) (i : ℕ) → any_entry (suc n) p f i ≡ (any_entry n p f i || p (f (i + n)))
  unfolding any_entry
  any_snoc zero f i = let here : i + 0 ≡ i = omega arith in rw here (ground arith)
  any_snoc (suc n) f i =
      let next : (i + 1) + n ≡ i + suc n = omega arith in
      ground (arith, any_snoc n f (i + 1), ap (λ (x : ℕ). p (f x)) next)

  any_ext :
      (n : ℕ) (f g : Block) (i : ℕ)
      → ((j : ℕ) → j < i + n → f j ≡ g j)
      → any_entry n p f i ≡ any_entry n p g i
  unfolding any_entry
  any_ext zero f g i h = refl
  any_ext (suc n) f g i h =
      rw (h i (omega arith), any_ext n f g (i + 1) (λ j l. h j (omega arith))) refl

  any_hit :
      (n : ℕ) (f : Block) (i j : ℕ) → i ≤ j → j < i + n → p (f j) ≡ true → any_entry n p f i ≡ true
  unfolding any_entry
  any_hit zero f i j a b e = absurd (omega arith)
  any_hit (suc n) f i j a b e = elim (Bool-cases (j == i)) [
    | inl s ↦
        let here : p (f i) ≡ true = ap (λ x. p (f x)) (sym ((==_iff j i).0 s)) ∙ e in rw here refl
    | inr s ↦ ground (arith, any_hit n f (i + 1) j (ground arith) (omega arith) e)
  ]

  any_find :
      (n : ℕ) (f : Block) (i : ℕ)
      → any_entry n p f i ≡ true
      → (j : ℕ) × (i ≤ j) × (j < i + n) × (p (f j) ≡ true)
  unfolding any_entry
  any_find zero f i e = absurd (cc)
  any_find (suc n) f i e = elim (Bool-cases (p (f i))) [
    | inl s ↦ (i, omega arith, omega arith, s)
    | inr s ↦
        let (j, a, b, c) = any_find n f (i + 1) (rw s at e) in (j, omega arith, omega arith, c)
  ]

-- The entry that a vote is copied to.
stored :
    (f : Block) (i : ℕ) (a : LogAddr)
    → IsBytes (f i)
    → IsBytes a
    → update f i (copy_logical_address (f i) a) i ≡ a
stored f i a v w = update_self f i _ ∙ copy_logical_address_lem (f i) a v w

compare_trans : (a b c : LogAddr) → compare_addr a b ≡ true → compare_addr a c ≡ compare_addr b c
unfolding compare_addr
compare_trans a b c e = ground arith

-- A listed address stands for all that compare equal with it.
pub listed :
    (t : Transaction) (a b : LogAddr)
    → has_vot t a ≡ true
    → has_vot t b ≡ (has_vot t b || compare_addr a b)
unfolding has_vot
listed t a b e = elim (Bool-cases (compare_addr a b)) [
  | inr s ↦ ground (arith, s)
  | inl s ↦
      let (j, x, y, z) = any_find (λ c. compare_addr c a) t.vots_buf_offset t.vots_buf 0 e in
      ground (
        arith,
        s,
        any_hit (λ c. compare_addr c b) t.vots_buf_offset t.vots_buf 0 j x y
            (compare_trans (t.vots_buf j) a b z ∙ s),
      )
]

not_listed :
    (t : Transaction) (a : LogAddr)
    → has_vot t a ≡ false
    → (i : ℕ) → i < t.vots_buf_offset
    → compare_addr (t.vots_buf i) a ≡ false
unfolding has_vot
not_listed t a new i low = elim (Bool-cases (compare_addr (t.vots_buf i) a)) [
  | inr e ↦ e
  | inl e ↦ absurd (
      cc (
        any_hit (λ b. compare_addr b a) t.vots_buf_offset t.vots_buf 0 i (omega arith) (omega arith)
            e,
        new,
      ))
]

pub add_vot_lem :
    (entries : ℕ) (t : Transaction) (a b : LogAddr)
    → entries < 2 ^ 32
    → IsVotes entries t
    → IsBytes a
    → has_vot (add_vot t a) b ≡ (has_vot t b || compare_addr a b)
unfolding has_vot add_vot
add_vot_lem entries t a b l v w =
    let o = t.vots_buf_offset in
    let q : LogAddr → Bool = λ c. compare_addr c b in
    let step : (o + 1) % 2 ^ 32 ≡ suc o = ground (arith, v.room) in
    let zero_o : 0 + o ≡ o = omega arith in
    let new : Block = update t.vots_buf o (copy_logical_address (t.vots_buf o) a) in
    let same : any_entry o q new 0 ≡ any_entry o q t.vots_buf 0 =
      any_ext q o new t.vots_buf 0 (λ j k. update_ne t.vots_buf o _ j (ground arith)) in
    ap (λ (x : ℕ). any_entry x q new 0) step
    ∙ any_snoc q o new 0
    ∙ cc (same, ap q (stored t.vots_buf o a (v.bytes o) w))

pub add_vot-IsVotes :
    (entries : ℕ) (t : Transaction) (a : LogAddr)
    → entries < 2 ^ 32
    → t.vots_buf_offset + 1 < entries
    → IsVotes entries t
    → IsBytes a
    → has_vot t a ≡ false
    → IsVotes entries (add_vot t a)
unfolding has_vot add_vot
add_vot-IsVotes entries t a l r v w new = record {
  room = ground arith;
  distinct = λ i j x y.
      let o = t.vots_buf_offset in
      let low : i < o = ground arith in
      let at_i = update_ne t.vots_buf o (copy_logical_address (t.vots_buf o) a) i (ground arith) in
      elim (Bool-cases (j == o)) [
        | inl e ↦
            let at_j =
              ap (update t.vots_buf o _) ((==_iff j o).0 e) ∙ stored t.vots_buf o a (v.bytes o) w in
            cc (at_i, at_j, not_listed t a new i low)
        | inr e ↦ cc (
          at_i,
          update_ne t.vots_buf o (copy_logical_address (t.vots_buf o) a) j e,
          v.distinct i j x (ground arith),
        )
      ];
  bytes = λ i. elim (Bool-cases (i == t.vots_buf_offset)) [
    | inl e ↦
        subst IsBytes
          (sym (
            ap (update t.vots_buf t.vots_buf_offset _) ((==_iff i _).0 e)
            ∙ stored t.vots_buf _ a (v.bytes _) w))
          w
    | inr e ↦ subst IsBytes (sym (update_ne t.vots_buf t.vots_buf_offset _ i e)) (v.bytes i)
  ];
}
