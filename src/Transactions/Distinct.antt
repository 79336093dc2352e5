-- ===== src/Transactions/Distinct.antt =====
-- No two transactions handle the same file.
use nandfs.Base.{
  ℕ, zero, suc, ◌+◌, ◌<◌, ◌≤◌, ◌≡◌, ◌⊎◌, inl, inr, refl, ap, ◌∙◌, sym, Bool, true, false, ◌==◌,
  update, update_self, update_ne, arith, Bool-cases, ==_iff, ◌^◌,
}
use nandfs.Addr.{LogAddr}
use nandfs.World.{World, Transaction, tid_empty}
use nandfs.Files.Tables.{first_index, ino_num_empty}
use nandfs.Files.Tables.Refs.{first_index_lem}
use nandfs.Transactions.{
  fs_max_n_transactions, is_transaction_empty, find_tid_by_file_id, get_free_transaction_id, claim,
  get_tid_by_file_id,
}

-- A file that has a transaction has one only.
pub record OneEach (ts : ℕ → Transaction) : Type 0 where
  pub same :
      (i j : ℕ)
      → i < fs_max_n_transactions
      → j < fs_max_n_transactions
      → ((ts i).ino_num == ino_num_empty) ≡ false
      → (ts i).ino_num ≡ (ts j).ino_num
      → i ≡ j

-- Where no index is found, none passes.
pub first_index_none :
    (p : ℕ → Bool) (n i j : ℕ)
    → i + n < 2 ^ 31
    → (first_index p n i == 0xffffffff) ≡ true
    → i ≤ j
    → j < i + n
    → p j ≡ false
unfolding first_index
first_index_none p zero i j l h a b = absurd (omega arith)
first_index_none p (suc n) i j l h a b = elim (Bool-cases (p i)) [
  | inl e ↦ absurd (let big : (i == 0xffffffff) ≡ true = rw e at h in ground arith)
  | inr e ↦ elim (Bool-cases (j == i)) [
    | inl t ↦ let same : j ≡ i = (==_iff j i).0 t in ap p same ∙ e
    | inr t ↦ first_index_none p n (i + 1) j (omega arith) (rw e at h) (ground arith) (omega arith)
  ]
]

claimed :
    (ts ts1 : ℕ → Transaction) (tid ino_num : ℕ)
    → OneEach ts
    → tid < fs_max_n_transactions
    → ((j : ℕ) → j < fs_max_n_transactions → ((ts j).ino_num == ino_num) ≡ false)
    → (ts1 tid).ino_num ≡ ino_num
    → ((j : ℕ) → (j == tid) ≡ false → (ts1 j).ino_num ≡ (ts j).ino_num)
    → OneEach ts1
claimed ts ts1 tid ino_num one lt new at others = record {
  same = λ i j li lj full e. elim (Bool-cases (i == tid)) [
    | inl a ↦ elim (Bool-cases (j == tid)) [
      | inl b ↦ (==_iff i tid).0 a ∙ sym ((==_iff j tid).0 b)
      | inr b ↦ absurd (omega (arith, clash j i lj a b (sym e)))
    ]
    | inr a ↦ elim (Bool-cases (j == tid)) [
      | inl b ↦ absurd (omega (arith, clash i j li b a e))
      | inr b ↦
          one.same i j li lj (sym (ap (λ (x : ℕ). x == ino_num_empty) (others i a)) ∙ full)
            (sym (others i a) ∙ e ∙ others j b)
    ]
  ];
}
  where
    clash :
        (j i : ℕ)
        → j < fs_max_n_transactions
        → (i == tid) ≡ true
        → (j == tid) ≡ false
        → (ts1 j).ino_num ≡ (ts1 i).ino_num
        → 1 ≤ 0
    clash j i lj a b e =
        let here : (ts1 i).ino_num ≡ ino_num =
          ap (λ (x : ℕ). (ts1 x).ino_num) ((==_iff i tid).0 a) ∙ at in
        let there : (ts j).ino_num ≡ ino_num = sym (others j b) ∙ e ∙ here in
        absurd (ground (arith, new j lj, there))

same_files :
    (ts ts1 : ℕ → Transaction)
    → OneEach ts
    → ((j : ℕ) → (ts1 j).ino_num ≡ (ts j).ino_num)
    → OneEach ts1
same_files ts ts1 one kept = record {
  same = λ i j li lj full e.
      one.same i j li lj (ap (λ (x : ℕ). x == ino_num_empty) (sym (kept i)) ∙ full)
        (sym (kept i) ∙ e ∙ kept j);
}

keeps_files :
    (ts : ℕ → Transaction) (tid : ℕ) (addr : LogAddr) (j : ℕ)
    → (update ts tid (record (ts tid) { ino_log_addr = addr }) j).ino_num ≡ (ts j).ino_num
unfolding update
keeps_files ts tid addr j = elim (Bool-cases (j == tid)) [
  | inl e ↦ rw e (ap (λ (x : ℕ). (ts x).ino_num) (sym ((==_iff j tid).0 e)))
  | inr e ↦ rw e refl
]

-- What getTidByFileId gives: no transaction, and then the file has none; or the transaction of the
-- file. No other transaction changes its file, and where the file had a transaction nothing changes.
abbrev pub IsTid : {M : Type 0} → World M → ℕ → ℕ × World M → Type 0
IsTid w ino_num (tid, w1) =
    (((tid ≡ tid_empty)
        × ((j : ℕ) → j < fs_max_n_transactions → ((w.transactions j).ino_num == ino_num) ≡ false))
      ⊎ ((tid < fs_max_n_transactions) × ((w1.transactions tid).ino_num ≡ ino_num)))
    × ((j : ℕ) → (j == tid) ≡ false → (w1.transactions j).ino_num ≡ (w.transactions j).ino_num)
    × ((j : ℕ) → j < fs_max_n_transactions → (w.transactions j).ino_num ≡ ino_num → w1 ≡ w)

without :
    {M : Type 0} (w w1 : World M) (ino_num : ℕ)
    → ((j : ℕ) → j < fs_max_n_transactions → ((w.transactions j).ino_num == ino_num) ≡ false)
    → (j : ℕ) → j < fs_max_n_transactions
    → (w.transactions j).ino_num ≡ ino_num
    → w1 ≡ w
without w w1 ino_num new j l e = absurd (ground (arith, new j l, e))

module _ {M : Type 0} (get_inode : LogAddr → ℕ → World M → ℕ × LogAddr × World M) where
  -- getInode changes the file of no transaction.
  abbrev pub KeepsFiles : Type 0
  KeepsFiles =
      (a : LogAddr) (n : ℕ) (w : World M) (j : ℕ)
      → (((get_inode a n w).2).transactions j).ino_num ≡ (w.transactions j).ino_num

  claim_lem :
      (w : World M) (tid ino_num : ℕ)
      → KeepsFiles
      → OneEach w.transactions
      → tid < fs_max_n_transactions
      → ((j : ℕ) → j < fs_max_n_transactions → ((w.transactions j).ino_num == ino_num) ≡ false)
      → OneEach ((claim get_inode w tid ino_num).1).transactions
        × IsTid w ino_num (claim get_inode w tid ino_num)
  unfolding claim
  claim_lem w tid ino_num keeps one lt new =
      let (res, addr, w1) = get_inode (w.transactions tid).ino_log_addr ino_num w in
      let same = keeps (w.transactions tid).ino_log_addr ino_num w in
      let ts1 : ℕ → Transaction =
        update w1.transactions tid (record (w1.transactions tid) { ino_log_addr = addr }) in
      let kept : (j : ℕ) → (ts1 j).ino_num ≡ (w.transactions j).ino_num =
        λ j. keeps_files w1.transactions tid addr j ∙ same j in
      elim (Bool-cases (res == 0)) [
        | inr e ↦ rw e (
          same_files w.transactions ts1 one kept,
          (inl (refl, new), (λ j h. kept j), without w _ ino_num new),
        )
        | inl e ↦
            let ts2 : ℕ → Transaction = update ts1 tid (record (ts1 tid) { ino_num = ino_num }) in
            let at : (ts2 tid).ino_num ≡ ino_num = ap (λ t. t.ino_num) (update_self ts1 tid _) in
            let others : (j : ℕ)
                → (j == tid) ≡ false
                → (ts2 j).ino_num ≡ (w.transactions j).ino_num =
              λ j h. ap (λ t. t.ino_num) (update_ne ts1 tid _ j h) ∙ kept j in
            rw e (
              claimed w.transactions ts2 tid ino_num one lt new at others,
              (inr (lt, at), others, without w _ ino_num new),
            )
      ]

  -- Where no two transactions handle the same file and getInode, which may write buffers of the cache,
  -- changes the file of no transaction, getTidByFileId keeps it so that no two handle the same one. It
  -- gives the transaction of the file, found or newly claimed, or none, and then the file has none. No
  -- other transaction changes its file, and nothing at all changes where the file has a transaction.
  pub get_tid_by_file_id_lem :
      (w : World M) (ino_num : ℕ)
      → KeepsFiles
      → OneEach w.transactions
      → OneEach ((get_tid_by_file_id get_inode w ino_num).1).transactions
        × IsTid w ino_num (get_tid_by_file_id get_inode w ino_num)
  unfolding get_tid_by_file_id find_tid_by_file_id get_free_transaction_id
  get_tid_by_file_id_lem w ino_num keeps one =
      let ts : ℕ → Transaction = w.transactions in
      let p : ℕ → Bool = λ i. (ts i).ino_num == ino_num in
      let tid : ℕ = first_index p 2 0 in
      let free : ℕ = first_index (is_transaction_empty ts) 2 0 in
      elim (Bool-cases (tid == tid_empty)) [
        | inr e ↦
            let (lt, ok) = first_index_lem p 2 0 (omega arith) e in
            rw e (one, (inr (lt, (==_iff _ ino_num).0 ok), (λ j h. refl), (λ j l same. refl)))
        | inl e ↦
            let none_has =
              λ (j : ℕ) (l : j < 2). first_index_none p 2 0 j (omega arith) e (omega arith) l in
            elim (Bool-cases (free == tid_empty)) [
              | inl f ↦ rw (e, f) (one, (inl (refl, none_has), (λ j h. refl), (λ j l same. refl)))
              | inr f ↦
                  let (lt, ok) = first_index_lem (is_transaction_empty ts) 2 0 (omega arith) f in
                  rw (e, f) (claim_lem w free ino_num keeps one lt none_has)
            ]
      ]
