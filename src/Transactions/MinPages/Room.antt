-- ===== src/Transactions/MinPages/Room.antt =====
-- The loop of handleMinPages ends, and what it leaves behind.
use nandfs.Base.{
  ℕ, zero, suc, ◌+◌, ◌<◌, ◌≡◌, refl, ◌∙◌, inl, inr, ◌⊎◌, Bool, true, false, not, ◌&&◌, ◌==◌,
  if◌then◌else◌, Bool-cases, Option, some, arith,
}
use nandfs.World.{World, Transaction}
use nandfs.Files.Tables.{ino_num_empty}
use nandfs.Cache.Lru.{fs_error_success}
use nandfs.Sequencing.SegMap.Empty.{first_from_lem}
use nandfs.Transactions.{fs_max_n_transactions, is_transaction_empty}
use nandfs.Transactions.Votes.{Pages, fs_error_io}
use nandfs.Transactions.MinPages.{
  Checkpoints, fs_error_wrt_thrshld, is_min_free_pages_reached, find_victim, after_abort, make_room,
}

abbrev pub may_abort : (ℕ → Transaction) → ℕ → ℕ → Bool
may_abort ts tid i = not (i == tid) && not (is_transaction_empty ts i)

-- How many transactions may be aborted.
abbrev pub busy : (ℕ → Transaction) → ℕ → ℕ
busy ts tid = (if may_abort ts tid 0 then 1 else 0) + (if may_abort ts tid 1 then 1 else 0)

find_victim_lem :
    (ts : ℕ → Transaction) (tid : ℕ)
    → ((find_victim ts tid ≡ 2) × ((j : ℕ) → j < 2 → may_abort ts tid j ≡ false))
      ⊎ ((find_victim ts tid < 2) × (may_abort ts tid (find_victim ts tid) ≡ true))
unfolding find_victim
find_victim_lem ts tid = elim (first_from_lem (may_abort ts tid) 2 2 0 2 refl) [
  | inl (gone, h) ↦ inl (gone, λ j l. h j (omega arith) l)
  | inr (lo, hi, ok, before) ↦ inr (hi, ok)
]

emptied :
    (ts : ℕ → Transaction) (i tid : ℕ)
    → i < 2
    → (ts i).ino_num ≡ ino_num_empty
    → may_abort ts tid i ≡ false
unfolding is_transaction_empty
emptied ts i tid l e = rw e (ground arith)

unchanged :
    (ts ts1 : ℕ → Transaction) (tid j : ℕ) → ts1 j ≡ ts j → may_abort ts1 tid j ≡ may_abort ts tid j
unfolding is_transaction_empty
unchanged ts ts1 tid j e = rw e refl

busy_less :
    (ts ts1 : ℕ → Transaction) (tid i : ℕ)
    → i < 2
    → may_abort ts tid i ≡ true
    → (ts1 i).ino_num ≡ ino_num_empty
    → ((j : ℕ) → (j == i) ≡ false → ts1 j ≡ ts j)
    → busy ts1 tid < busy ts tid
busy_less ts ts1 tid zero l ok new others =
    rw (ok, emptied ts1 0 tid l new, unchanged ts ts1 tid 1 (others 1 refl)) (omega arith)
busy_less ts ts1 tid (suc zero) l ok new others =
    rw (ok, emptied ts1 1 tid l new, unchanged ts ts1 tid 0 (others 0 refl)) (omega arith)
busy_less ts ts1 tid (suc (suc i)) l ok new others = absurd (omega arith)

busy_lt : (ts : ℕ → Transaction) (tid : ℕ) → busy ts tid < 3
busy_lt ts tid = ground arith

module _ {M : Type 0} (pages : Pages M) (calls : Checkpoints M) (buffers : ℕ) where
  -- In the states of `P` an abort ends; with success the transaction is empty, no other has changed,
  -- and the state is one of `P` again.
  abbrev pub Empties : (World M → Type 0) → (ℕ → World M → Option (ℕ × World M)) → Type 0
  Empties P abort =
      (i : ℕ) (w : World M)
      → P w
      → (res : ℕ) × (w1 : World M) × (abort i w ≡ some (res, w1))
        × ((res == 0) ≡ true
            → ((w1.transactions i).ino_num ≡ ino_num_empty)
              × ((j : ℕ) → (j == i) ≡ false → w1.transactions j ≡ w.transactions j)
              × P w1)

  -- In a state without room, with the current transaction as before, the abort of another transaction
  -- that is not empty fails and leaves the state.
  pub record IsFailed (P : World M → Type 0) (abort : ℕ → World M → Option (ℕ × World M))
      (w : World M) (tid : ℕ) (w1 : World M) : Type 0 where
    pub before : World M
    pub victim : ℕ
    pub code : ℕ
    pub reachable : P before
    pub same_current : before.transactions tid ≡ w.transactions tid
    pub no_room : is_min_free_pages_reached pages calls buffers before ≡ true
    pub in_table : victim < fs_max_n_transactions
    pub other : may_abort before.transactions tid victim ≡ true
    pub run : abort victim before ≡ some (code, w1)
    pub failed : (code == 0) ≡ false

  -- There is room for a write; or there is none though every other transaction is empty; or an abort
  -- has failed. In the first two cases the current transaction is as before.
  abbrev pub IsRoom :
      (World M → Type 0) → (ℕ → World M → Option (ℕ × World M)) → World M → ℕ → ℕ × World M → Type 0
  IsRoom P abort w tid (res, w1) =
      ((res ≡ fs_error_success)
        × (is_min_free_pages_reached pages calls buffers w1 ≡ false)
        × (w1.transactions tid ≡ w.transactions tid))
      ⊎ ((res ≡ fs_error_wrt_thrshld)
          × (is_min_free_pages_reached pages calls buffers w1 ≡ true)
          × (w1.transactions tid ≡ w.transactions tid)
          × ((j : ℕ)
              → j < fs_max_n_transactions
              → (j == tid) ≡ false
              → is_transaction_empty w1.transactions j ≡ true))
      ⊎ ((res ≡ fs_error_io) × IsFailed P abort w tid w1)

  make_room_lem :
      (k : ℕ) (P : World M → Type 0) (abort : ℕ → World M → Option (ℕ × World M)) (tid : ℕ)
      (w : World M)
      → Empties P abort
      → P w
      → busy w.transactions tid < k
      → (r : ℕ × World M) × (make_room pages calls buffers k abort tid w ≡ some r)
        × IsRoom P abort w tid r
  unfolding make_room after_abort
  make_room_lem zero P abort tid w empties start l = absurd (omega arith)
  make_room_lem (suc k) P abort tid w empties start l =
      elim (Bool-cases (is_min_free_pages_reached pages calls buffers w)) [
        | inr enough ↦ ((0, w), rw enough refl, inl (refl, enough, refl))
        | inl reached ↦ elim (find_victim_lem w.transactions tid) [
          | inl (none_left, all) ↦ (
            (fs_error_wrt_thrshld, w),
            rw (reached, none_left) refl,
            inr (inl (refl, reached, refl, λ j lj ne. ground (arith, all j lj))),
          )
          | inr (lt, ok) ↦
              let i : ℕ = find_victim w.transactions tid in
              let some_left : (i == 2) ≡ false = ground arith in
              let (res, w1, run, good) = empties i w start in
              elim (Bool-cases (res == 0)) [
                | inr e ↦ (
                  (fs_error_io, w1),
                  rw (reached, some_left, run, e) refl,
                  inr (
                      inr (
                        refl,
                        record {
                          before = w;
                          victim = i;
                          code = res;
                          reachable = start;
                          same_current = refl;
                          no_room = reached;
                          in_table = lt;
                          other = ok;
                          run = run;
                          failed = e;
                        },
                      )),
                )
                | inl e ↦
                    let (new, others, again) = good e in
                    let less = busy_less w.transactions w1.transactions tid i lt ok new others in
                    let (r, rest, room) =
                      make_room_lem k P abort tid w1 empties again (omega (arith, less)) in
                    let kept : w1.transactions tid ≡ w.transactions tid =
                      others tid (ground arith) in
                    (r, rw (reached, some_left, run, e) rest, go_on P abort w w1 tid r kept room)
              ]
        ]
      ]
    where
      go_on :
          (P : World M → Type 0) (abort : ℕ → World M → Option (ℕ × World M)) (w w1 : World M)
          (tid : ℕ) (r : ℕ × World M)
          → w1.transactions tid ≡ w.transactions tid
          → IsRoom P abort w1 tid r
          → IsRoom P abort w tid r
      go_on P abort w w1 tid r kept (inl (a, b, c)) = inl (a, b, c ∙ kept)
      go_on P abort w w1 tid r kept (inr (inl (a, b, c, d))) = inr (inl (a, b, c ∙ kept, d))
      go_on P abort w w1 tid r kept (inr (inr (a, f))) = inr (
          inr (
            a,
            record {
              before = f.before;
              victim = f.victim;
              code = f.code;
              reachable = f.reachable;
              same_current = f.same_current ∙ kept;
              no_room = f.no_room;
              in_table = f.in_table;
              other = f.other;
              run = f.run;
              failed = f.failed;
            },
          ))

  -- Where every abort ends and, with success, empties its transaction and leaves the others, the loop of
  -- handleMinPages ends within three rounds for the two transactions. Then there is room for a write and
  -- the current transaction is as before; or the result is FS_ERROR_WRT_THRSHLD, there is no room though
  -- every other transaction is empty, and the current one is as before; or the result is -1 whatever the
  -- error was, and the abort of another transaction that was not empty has failed, in a state without
  -- room and with the current transaction as before.
  pub make_room_ends :
      (P : World M → Type 0) (abort : ℕ → World M → Option (ℕ × World M)) (tid : ℕ) (w : World M)
      → Empties P abort
      → P w
      → (r : ℕ × World M) × (make_room pages calls buffers 3 abort tid w ≡ some r)
        × IsRoom P abort w tid r
  make_room_ends P abort tid w empties start =
      make_room_lem 3 P abort tid w empties start (busy_lt w.transactions tid)
