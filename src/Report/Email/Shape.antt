-- ===== src/Report/Email/Shape.antt =====
-- What the expression for an address accepts: words around an `@` and a dot.
use mathlib.Core.Path.{subst}
use finance.Prelude.{
  ℕ, ◌≡◌, ◌↔◌, refl, arith, true, ◌&&◌, List, [], ◌∷◌, ◌++◌, ◌==◌, Bool-cases, inl, inr, ap, sym,
  ◌∙◌,
}
use finance.Report.Email.{
  at_sign, dot, is_plain, all_plain, is_word, has_dot, is_domain, has_at, is_email,
}

-- The parts around a separator.
abbrev IsSplit : ℕ → (List ℕ → Type 0) → (List ℕ → Type 0) → List ℕ → Type 0
IsSplit c P Q s = (a : List ℕ) × ((b : List ℕ) × ((s ≡ a ++ c ∷ b) × (P a × Q b)))

abbrev IsWord : List ℕ → Type 0
IsWord s = is_word s ≡ true

abbrev IsPlain : List ℕ → Type 0
IsPlain s = all_plain s ≡ true

abbrev IsDomain : List ℕ → Type 0
IsDomain = IsSplit dot IsWord IsWord

-- A word, an `@`, a word, a dot and a word; a word is not empty and has no white space and no `@`.
abbrev pub IsEmail : List ℕ → Type 0
IsEmail = IsSplit at_sign IsWord IsDomain

later :
    {c : ℕ} {Q : List ℕ → Type 0} (x : ℕ) (s : List ℕ)
    → is_plain x ≡ true
    → IsSplit c IsPlain Q s
    → IsSplit c IsPlain Q (x ∷ s)
later x s h (a, (b, (e, (p, q)))) = (x ∷ a, (b, (ap (λ t. x ∷ t) e, (rw h p, q))))

first-IsWord :
    {c : ℕ} {Q : List ℕ → Type 0} (x : ℕ) (s : List ℕ)
    → is_plain x ≡ true
    → IsSplit c IsPlain Q s
    → IsSplit c IsWord Q (x ∷ s)
first-IsWord x s h (a, (b, (e, (p, q)))) = (x ∷ a, (b, (ap (λ t. x ∷ t) e, (rw h p, q))))

has_dot-split : (s : List ℕ) → has_dot s ≡ true → IsSplit dot IsPlain IsWord s
has_dot-split [] h = absurd (ground arith)
has_dot-split (x ∷ s) h = elim (Bool-cases ((x == dot) && is_word s)) [
  | inl e ↦
      let same : x ≡ dot = ground arith in ([], (s, (ap (λ y. y ∷ s) same, (refl, ground arith))))
  | inr e ↦
      let rest : (is_plain x && has_dot s) ≡ true = rw e at h in
      later x s (ground arith) (has_dot-split s (ground arith))
]

split-has_dot : (a b : List ℕ) → IsPlain a → IsWord b → has_dot (a ++ dot ∷ b) ≡ true
split-has_dot [] b p q = rw q refl
split-has_dot (x ∷ a) b p q = ground (arith, split-has_dot a b)

is_domain-split : (s : List ℕ) → is_domain s ≡ true → IsDomain s
is_domain-split [] h = absurd (ground arith)
is_domain-split (x ∷ s) h = first-IsWord x s (ground arith) (has_dot-split s (ground arith))

split-is_domain : (a b : List ℕ) → IsWord a → IsWord b → is_domain (a ++ dot ∷ b) ≡ true
split-is_domain [] b p q = absurd (ground arith)
split-is_domain (x ∷ a) b p q = ground (arith, split-has_dot a b)

has_at-split : (s : List ℕ) → has_at s ≡ true → IsSplit at_sign IsPlain IsDomain s
has_at-split [] h = absurd (ground arith)
has_at-split (x ∷ s) h = elim (Bool-cases (x == at_sign)) [
  | inl e ↦
      let same : x ≡ at_sign = ground arith in
      ([], (s, (ap (λ y. y ∷ s) same, (refl, is_domain-split s (rw e at h)))))
  | inr e ↦ later x s (ground arith) (has_at-split s (ground arith))
]

split-has_at : (a b : List ℕ) → IsPlain a → is_domain b ≡ true → has_at (a ++ at_sign ∷ b) ≡ true
split-has_at [] b p q = rw q refl
split-has_at (x ∷ a) b p q = ground (arith, split-has_at a b)

split-is_email : (a b : List ℕ) → IsWord a → is_domain b ≡ true → is_email (a ++ at_sign ∷ b) ≡ true
unfolding is_email
split-is_email [] b p q = absurd (ground arith)
split-is_email (x ∷ a) b p q = ground (arith, split-has_at a b)

nil_is_not_split : (c : ℕ) (a b : List ℕ) → [] ≡ a ++ c ∷ b → ⊥
nil_is_not_split c [] b e = cc
nil_is_not_split c (x ∷ a) b e = cc

-- The test for an address accepts exactly the texts that are a word, an `@`, a word, a dot and a
-- word, where a word has at least one character and neither white space nor an `@`.
pub is_email_iff : (s : List ℕ) → (is_email s ≡ true) ↔ IsEmail s
unfolding is_email
is_email_iff [] =
    (λ h. absurd (ground arith), λ (a, (b, (e, pq))). absurd (nil_is_not_split at_sign a b e))
is_email_iff (x ∷ s) = (
  λ h. first-IsWord x s (ground arith) (has_at-split s (ground arith)),
  λ (a, (b, (e, (p, (c, (d, (e', (q, r)))))))).
      subst (λ t. is_email t ≡ true) (sym (e ∙ ap (λ u. a ++ at_sign ∷ u) e'))
        (split-is_email a (c ++ dot ∷ d) p (split-is_domain c d q r)),
)
