-- ===== src/Bitesize.antt =====
-- The keys of the per-process histogram of tools/BPF-tools/new/2019-05-21/bitesize_kern.c and
-- bitesize_user.c, and the map that the two sides share.
pub mod Kern
pub mod User
pub mod Main
pub mod Interval
pub mod Shown
use prog_playground.Prelude.{
  ℕ, ◌≡◌, ◌↔◌, arith, refl, Bool, true, false, ◌&&◌, List, [], ◌∷◌, ◌==◌, KeyEq,
}

pub record TaskInfo : Type 0 where
  pub pid : ℕ
  pub uid : ℕ
  pub comm : List ℕ

pub record HistKey : Type 0 where
  pub info : TaskInfo
  pub index : ℕ

-- The kernel compares keys byte by byte.
abbrev pub comm_eq : List ℕ → List ℕ → Bool
comm_eq [] [] = true
comm_eq [] (y ∷ ys) = false
comm_eq (x ∷ xs) [] = false
comm_eq (x ∷ xs) (y ∷ ys) = x == y && comm_eq xs ys

pub comm_eq_iff : (xs ys : List ℕ) → (comm_eq xs ys ≡ true) ↔ (xs ≡ ys)
comm_eq_iff [] [] = ground arith
comm_eq_iff [] (y ∷ ys) = ground arith
comm_eq_iff (x ∷ xs) [] = ground arith
comm_eq_iff (x ∷ xs) (y ∷ ys) = ground (arith, comm_eq_iff xs ys)

abbrev pub key_eq : HistKey → HistKey → Bool
key_eq a b =
    a.info.pid == b.info.pid
    && a.info.uid == b.info.uid
    && comm_eq a.info.comm b.info.comm
    && a.index == b.index

pub key_eq_iff : (a b : HistKey) → (key_eq a b ≡ true) ↔ (a ≡ b)
key_eq_iff a b = ground (arith, comm_eq_iff a.info.comm b.info.comm)

instance abbrev pub key_Eq : KeyEq HistKey
key_Eq = record { is_same = key_eq; is_same_iff = key_eq_iff }

-- `struct hist_key key = {}`
abbrev pub zero_key : HistKey
zero_key = record {
  info = record {
    pid = 0;
    uid = 0;
    comm = 0 ∷ 0 ∷ 0 ∷ 0 ∷ 0 ∷ 0 ∷ 0 ∷ 0 ∷ 0 ∷ 0 ∷ 0 ∷ 0 ∷ 0 ∷ 0 ∷ 0 ∷ 0 ∷ [];
  };
  index = 0;
}
