-- ===== src/Decision.antt =====
-- The decision on how to book a transaction from confirmed history, as it is made without a model: the
-- evidence for a candidate, the candidates that are admitted, and the decision.
pub mod Evidence
pub mod Explained
pub mod Candidates
pub mod Restrict
pub mod Choose
pub mod Decide
pub mod Accounts
pub mod Few
pub mod Chosen
pub mod Proposed
pub mod Consistent
pub mod Decided
use finance.Prelude.{ℕ, suc, ◌-◌, Bool, true, false, not, List, [], ◌∷◌, String, ltb, if◌then◌else◌}
use finance.Prelude.Int.{ℤ, pos, ltb_ℤ}

-- `hashEvidence` of a value, which is passed as it is in place of its JSON text, and `localeCompare`.
pub record Hashing : Type 1 where
  pub hash_of : {A : Type 0} → A → String
  pub locale_compare : String → String → ℤ

abbrev pub min : ℕ → ℕ → ℕ
min a b = if ltb b a then b else a

abbrev pub max : ℕ → ℕ → ℕ
max a b = if ltb a b then b else a

-- `items.slice(0, n)`
abbrev pub take {ℓ} : {A : Type ℓ} → ℕ → List A → List A
take ℕ.zero xs = []
take (suc n) [] = []
take (suc n) (x ∷ xs) = x ∷ take n xs

-- A comparison that goes on where two numbers are the same.
abbrev pub ascending : ℕ → ℕ → Bool → Bool
ascending a b rest = if ltb a b then true else if ltb b a then false else rest

abbrev pub descending : ℕ → ℕ → Bool → Bool
descending a b rest = ascending b a rest

abbrev pub text_le : Hashing → String → String → Bool
text_le h a b = not (ltb_ℤ (pos 0) (h.locale_compare a b))

pub data Dimension : Type 0 where
  project transaction_type category : Dimension
