-- ===== src/Statement/Stored.antt =====
-- A file that is stored is read back as it was sent, whether it was there before or not.
use mathlib.Core.Path.{subst}
use finance.Prelude.{
  ℕ, suc, ◌≤◌, ◌≡◌, refl, arith, Bool, true, not, ◌==◌, List, [], ◌∷◌, String, str_eq, str_eq_iff,
  if◌then◌else◌, Bool-cases, inl, inr, ok, sym, ap, ◌∙◌,
}
use finance.Prelude.Sums.{count}
use finance.Database.{IsClient}
use finance.Statement.Sources.{
  SourceEnv, StoreSourceFileInput, SourceFile, to_source_buffer, hash_source_content, source_row,
  same_source, store_source_file, read_source_file_bytes,
}
use finance.Statement.Kept.{
  bytes_eq, bytes_eq_refl, of_id, hashed, collides, IsStored, copy_of, read_of_copy,
}

str_eq_refl : (s : String) → str_eq s s ≡ true
str_eq_refl s = (str_eq_iff s s).1 refl

count_same {ℓ} :
    {A : Type ℓ} (p q : A → Bool) (xs : List A)
    → count (λ x. q (if p x then x else x)) xs ≡ count q xs
count_same p q [] = refl
count_same p q (x ∷ xs) = elim (Bool-cases (p x)) [
  | inl e ↦ rw (e, count_same p q xs) refl
  | inr e ↦ rw (e, count_same p q xs) refl
]

module _ (env : SourceEnv) (rows : List SourceFile) (input : StoreSourceFileInput)
    (stored : IsStored env rows) (fresh : count (of_id env.new_id) rows ≡ 0) where
  one_id-new :
      (id : String)
      → (if str_eq env.new_id id then suc (count (of_id id) rows) else count (of_id id) rows) ≤ 1
  one_id-new id = elim (Bool-cases (str_eq env.new_id id)) [
    | inl e ↦
        let same : env.new_id ≡ id = (str_eq_iff _ _).0 e in
        let none_yet = subst (λ i. count (of_id i) rows ≡ 0) same fresh in
        rw (e, none_yet) (omega arith)
    | inr e ↦ rw e (stored.one_id id)
  ]

-- What the stored file and the rows after it have to be.
record Keeps (env : SourceEnv) (input : StoreSourceFileInput) (file : SourceFile)
    (rows' : List SourceFile) : Type 0 where
  still_stored : IsStored env rows'
  copied : 1 ≤ count (copy_of file.id input.workspace_id (to_source_buffer env input.content)) rows'

module _ (env : SourceEnv) (lawful : IsClient env.client) (rows : List SourceFile)
    (input : StoreSourceFileInput) (stored : IsStored env rows)
    (fresh : count (of_id env.new_id) rows ≡ 0)
    (collision_free : count (collides env (to_source_buffer env input.content)) rows ≡ 0) where
  abbrev hash : String
  hash = hash_source_content env input.content

  abbrev bytes_of : List ℕ
  bytes_of = to_source_buffer env input.content

  abbrev same : SourceFile → Bool
  same = same_source input.workspace_id hash

  abbrev new_row : SourceFile
  new_row = source_row env input

  abbrev after : SourceFile × List SourceFile
  after = env.client.upsert same new_row (λ f. f) rows

  Keeps-new : count same rows ≡ 0 → Keeps env input after.0 after.1
  Keeps-new none_there =
      let (file, counts) = lawful.upsert_new same new_row (λ f. f) rows none_there in
      let here : copy_of new_row.id input.workspace_id bytes_of new_row ≡ true =
        rw (str_eq_refl env.new_id, str_eq_refl input.workspace_id, bytes_eq_refl bytes_of) refl in
      let is_hashed : hashed env new_row ≡ true = str_eq_refl hash in
      record {
        still_stored = record {
          one_id = λ id. rw (counts (of_id id)) (one_id-new env rows input stored fresh id);
          all_hashed = rw (counts (λ f. not (hashed env f)), is_hashed) stored.all_hashed;
        };
        copied = rw (ap (λ (f : SourceFile). f.id) file, counts _, here) (omega arith);
      }

  -- The file that was there has the bytes: no others have their hash.
  same_bytes :
      (f : SourceFile)
      → same f ≡ true
      → ((q : SourceFile → Bool) → q f ≡ true → 1 ≤ count q rows)
      → bytes_eq f.content bytes_of ≡ true
  same_bytes f found occurs = elim (Bool-cases (hashed env f)) [
    | inr e ↦
        let bad = occurs (λ g. not (hashed env g)) (rw e refl) in
        absurd (omega (arith, bad, stored.all_hashed))
    | inl e ↦ elim (Bool-cases (bytes_eq f.content bytes_of)) [
      | inl t ↦ t
      | inr t ↦
          let own : f.sha256 ≡ env.digest f.content = (str_eq_iff _ _).0 e in
          let hash_found : str_eq f.sha256 hash ≡ true = ground arith in
          let asked : f.sha256 ≡ hash = (str_eq_iff _ _).0 hash_found in
          let equal : str_eq (env.digest f.content) hash ≡ true =
            (str_eq_iff _ _).1 (sym own ∙ asked) in
          let bad = occurs (collides env bytes_of) (rw (equal, t) refl) in
          absurd (omega (arith, bad, collision_free))
    ]
  ]

  Keeps-old : 1 ≤ count same rows → Keeps env input after.0 after.1
  Keeps-old there =
      let (f, (found, (occurs, (file, counts)))) =
        lawful.upsert_old same new_row (λ f. f) rows there in
      let unchanged : (q : SourceFile → Bool) → count q after.1 ≡ count q rows =
        λ q. counts q ∙ count_same same q rows in
      let own : str_eq f.workspace_id input.workspace_id ≡ true = ground arith in
      let here : copy_of f.id input.workspace_id bytes_of f ≡ true =
        rw (str_eq_refl f.id, own, same_bytes f found occurs) refl in
      record {
        still_stored = record {
          one_id = λ id. rw (unchanged (of_id id)) (stored.one_id id);
          all_hashed = unchanged _ ∙ stored.all_hashed;
        };
        copied = rw (ap (λ (g : SourceFile). g.id) file, unchanged _) (occurs _ here);
      }

  stores : Keeps env input after.0 after.1
  stores = elim (Bool-cases (count same rows == 0)) [
    | inl e ↦ Keeps-new (ground arith)
    | inr e ↦ Keeps-old (ground arith)
  ]

  -- Of files whose identifiers differ and whose hashes are those of their contents: a file that is
  -- stored, when the new identifier is free and no stored file has other bytes with the same hash,
  -- is read back from its workspace byte by byte as it was sent, whether it was there before or not,
  -- and the identifiers differ and the hashes are right as before.
  pub read_source_file_bytes-store_source_file :
      IsStored env (store_source_file env rows input).1
      × (read_source_file_bytes env
            (store_source_file env rows input).1
            input.workspace_id
            (store_source_file env rows input).0.id
          ≡ ok (to_source_buffer env input.content))
  unfolding store_source_file
  read_source_file_bytes-store_source_file = (
    stores.still_stored,
    read_of_copy env lawful after.1 after.0.id input.workspace_id bytes_of
        (stores.still_stored.one_id after.0.id) stores.copied,
  )
