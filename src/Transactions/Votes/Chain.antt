-- ===== src/Transactions/Votes/Chain.antt =====
-- The addresses that the walks along the pages of a transaction mark, as a list.
use mathlib.Core.Path.{fun_ext}
use nandfs.Base.{
  ℕ, zero, suc, ◌+◌, ◌≡◌, refl, sym, ap, ◌∙◌, inl, inr, Bool, ◌==◌, if◌then◌else◌, Bool-cases,
  Option, none, some, ◌>>=◌, List, [], ◌∷◌, ◌++◌,
}
use nandfs.Addr.{LogAddr, is_addr_empty}
use nandfs.Cache.State.{Block}
use nandfs.Cache.Lru.{fs_error_success}
use nandfs.World.{World}
use nandfs.Transactions.Votes.{Pages, tr_mark_as_obsolete, verified, perform_vots}

-- The votes of a page up to the first empty one.
abbrev pub voted : ℕ → ℕ → Block → List LogAddr
voted zero i vots = []
voted (suc n) i vots = if is_addr_empty (vots i) then [] else vots i ∷ voted n (i + 1) vots

-- A page of a transaction: where it is, the page before it, and its votes if it holds votes.
pub record Page : Type 0 where
  pub address : LogAddr
  pub prev : LogAddr
  pub is_vots : Bool
  pub votes : Block

module _ {M : Type 0} (pages : Pages M) (buffers : ℕ) where
  -- Marking the addresses of a list in order, up to the first failure, which gives -1.
  abbrev pub mark_all : List LogAddr → Bool → World M → Option (ℕ × World M)
  mark_all [] r w = some (fs_error_success, w)
  mark_all (a ∷ rest) r w =
      tr_mark_as_obsolete pages buffers w a r >>= verified pages buffers (mark_all rest r)

  verified-verified :
      (f g : World M → Option (ℕ × World M)) (x : ℕ × World M)
      → (verified pages buffers f x >>= verified pages buffers g)
        ≡ verified pages buffers (λ w. f w >>= verified pages buffers g) x
  unfolding verified
  verified-verified f g (res, w) = elim (Bool-cases (res == 0)) [
    | inl e ↦ rw e refl
    | inr e ↦ rw e refl
  ]

  pub bind_verified :
      (o : Option (ℕ × World M)) (f g : World M → Option (ℕ × World M))
      → (o >>= verified pages buffers f >>= verified pages buffers g)
        ≡ (o >>= verified pages buffers (λ w. f w >>= verified pages buffers g))
  bind_verified none f g = refl
  bind_verified (some x) f g = verified-verified f g x

  -- Two continuations that agree where they are reached.
  pub bind_cong :
      (o : Option (ℕ × World M)) (f g : World M → Option (ℕ × World M))
      → ((res : ℕ) (w : World M) → o ≡ some (res, w) → f w ≡ g w)
      → (o >>= verified pages buffers f) ≡ (o >>= verified pages buffers g)
  unfolding verified
  bind_cong none f g h = refl
  bind_cong (some (res, w)) f g h = elim (Bool-cases (res == 0)) [
    | inl e ↦ rw e (h res w refl)
    | inr e ↦ rw e refl
  ]

  pub mark_all-append :
      (xs ys : List LogAddr) (r : Bool) (w : World M)
      → mark_all (xs ++ ys) r w ≡ (mark_all xs r w >>= verified pages buffers (mark_all ys r))
  unfolding verified
  mark_all-append [] ys r w = refl
  mark_all-append (x ∷ xs) ys r w =
      ap (λ f. tr_mark_as_obsolete pages buffers w x r >>= verified pages buffers f)
        (fun_ext (λ v. mark_all-append xs ys r v))
      ∙ sym
          (bind_verified (tr_mark_as_obsolete pages buffers w x r) (mark_all xs r) (mark_all ys r))

  -- performVOTs marks the votes of the page up to the first empty one.
  pub perform_vots_lem :
      (n i : ℕ) (vots : Block) (r : Bool) (w : World M)
      → perform_vots pages buffers n i vots r w ≡ mark_all (voted n i vots) r w
  unfolding perform_vots
  perform_vots_lem zero i vots r w = refl
  perform_vots_lem (suc n) i vots r w = elim (Bool-cases (is_addr_empty (vots i))) [
    | inl e ↦ rw e refl
    | inr e ↦ rw e (
        ap (λ f. tr_mark_as_obsolete pages buffers w (vots i) r >>= verified pages buffers f)
          (fun_ext (λ v. perform_vots_lem n (i + 1) vots r v)))
  ]

  -- Marking an address, then going on.
  pub mark_one :
      (a : LogAddr) (r : Bool) (w : World M) (g : World M → Option (ℕ × World M))
      → (mark_all (a ∷ []) r w >>= verified pages buffers g)
        ≡ (tr_mark_as_obsolete pages buffers w a r >>= verified pages buffers g)
  unfolding verified
  mark_one a r w g = bind_verified (tr_mark_as_obsolete pages buffers w a r) (mark_all [] r) g
