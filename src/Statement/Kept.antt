-- ===== src/Statement/Kept.antt =====
-- The state of the stored files, and what is read of one that is there.
use finance.Prelude.{
  ℕ, ◌+◌, ◌≤◌, ◌≡◌, refl, arith, Bool, true, false, not, ◌&&◌, ◌==◌, List, [], ◌∷◌, String, str_eq,
  Bool-cases, Option-cases, inl, inr, ok, ap,
}
use finance.Prelude.Sums.{count, count-le}
use finance.Database.{IsClient}
use finance.Statement.Sources.{SourceEnv, SourceFile, source_in, read_source_file_bytes}

-- Whether two sequences of bytes are the same.
abbrev pub bytes_eq : List ℕ → List ℕ → Bool
bytes_eq [] [] = true
bytes_eq [] (b ∷ bs) = false
bytes_eq (a ∷ rest) [] = false
bytes_eq (a ∷ rest) (b ∷ bs) = a == b && bytes_eq rest bs

pub bytes_eq_refl : (a : List ℕ) → bytes_eq a a ≡ true
bytes_eq_refl [] = refl
bytes_eq_refl (a ∷ rest) = ground (arith, bytes_eq_refl rest)

pub bytes_eq_sound : (a b : List ℕ) → bytes_eq a b ≡ true → a ≡ b
bytes_eq_sound [] [] h = refl
bytes_eq_sound [] (b ∷ bs) h = absurd cc
bytes_eq_sound (a ∷ rest) [] h = absurd cc
bytes_eq_sound (a ∷ rest) (b ∷ bs) h =
    let head : a ≡ b = ground arith in
    let tail : rest ≡ bs = bytes_eq_sound rest bs (ground arith) in rw (head, tail) refl

abbrev pub of_id : String → SourceFile → Bool
of_id id f = str_eq f.id id

-- The stored hash is that of the stored content.
abbrev pub hashed : SourceEnv → SourceFile → Bool
hashed env f = str_eq f.sha256 (env.digest f.content)

-- The other bytes that have the hash of the given ones.
abbrev pub collides : SourceEnv → List ℕ → SourceFile → Bool
collides env content f =
    str_eq (env.digest f.content) (env.digest content) && not (bytes_eq f.content content)

-- No identifier is given twice, and each hash is that of the content.
pub record IsStored (env : SourceEnv) (rows : List SourceFile) : Type 0 where
  pub one_id : (id : String) → count (of_id id) rows ≤ 1
  pub all_hashed : count (λ f. not (hashed env f)) rows ≡ 0

pub count_split {ℓ} :
    {A : Type ℓ} (p q : A → Bool) (xs : List A)
    → count (λ x. p x && q x) xs + count (λ x. p x && not (q x)) xs ≡ count p xs
count_split p q [] = refl
count_split p q (x ∷ xs) = ground (arith, count_split p q xs)

-- The file of a workspace with an identifier and a content.
abbrev pub copy_of : String → String → List ℕ → SourceFile → Bool
copy_of id workspace content f = source_in id workspace f && bytes_eq f.content content

module _ (env : SourceEnv) (lawful : IsClient env.client) (rows : List SourceFile) where
  one_content :
      (id workspace : String) (content : List ℕ) (g : SourceFile)
      → count (of_id id) rows ≤ 1
      → 1 ≤ count (copy_of id workspace content) rows
      → str_eq g.id id ≡ true
      → ((q : SourceFile → Bool) → q g ≡ true → 1 ≤ count q rows)
      → bytes_eq g.content content ≡ true
  one_content id workspace content g one copy named occurs =
      elim (Bool-cases (bytes_eq g.content content)) [
        | inl t ↦ t
        | inr t ↦
            let like = λ (f : SourceFile). bytes_eq f.content content in
            let other = occurs (λ f. of_id id f && not (like f)) (rw (named, t) refl) in
            let kept =
              count-le (copy_of id workspace content) (λ f. of_id id f && like f) rows
                (λ f h. ground arith) in
            absurd (omega (arith, one, copy, other, kept, count_split (of_id id) like rows))
      ]

  -- What is read of a file that is there, and the only one with its identifier.
  pub read_of_copy :
      (id workspace : String) (content : List ℕ)
      → count (of_id id) rows ≤ 1
      → 1 ≤ count (copy_of id workspace content) rows
      → read_source_file_bytes env rows workspace id ≡ ok content
  unfolding read_source_file_bytes
  read_of_copy id workspace content one copy =
      elim (Option-cases (env.client.find_first (source_in id workspace) rows)) [
        | inl e ↦
            let none_here = lawful.find_first_none _ rows e in
            let kept =
              count-le (copy_of id workspace content) (source_in id workspace) rows
                (λ f h. ground arith) in
            absurd (omega (arith, none_here, copy, kept))
        | inr (g, e) ↦
            let (own, there) = lawful.find_first_some _ rows g e in
            let named : str_eq g.id id ≡ true = ground arith in
            let same = one_content id workspace content g one copy named there in
            rw e (ap ok (bytes_eq_sound g.content content same))
      ]
