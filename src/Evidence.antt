-- ===== src/Evidence.antt =====
-- server/services/reviewDecisionService.ts, `stableValue`: the form of a value of which the hashes
-- are taken, with the entries of every object in the order of their keys.
use finance.Prelude.{ℕ, Bool, true, false, not, String, List, [], ◌∷◌, if◌then◌else◌}
use finance.Prelude.Int.{ℤ, pos, ltb_ℤ}

-- A value; a date and a `bigint` are leaves, which the code prints.
mutual
  pub data Json : Type 0 where
    undefined null : Json
    bool : Bool → Json
    number : ℤ → Json
    bigint : ℤ → Json
    date : ℕ → Json
    text : String → Json
    array : Elements → Json
    object : Entries → Json

  pub data Elements : Type 0 where
    end : Elements
    item : Json → Elements → Elements

  pub data Entries : Type 0 where
    done : Entries
    entry : String → Json → Entries → Entries

abbrev pub is_undefined : Json → Bool
is_undefined Json.undefined = true
is_undefined _ = false

module _ (locale_compare : String → String → ℤ) where
  -- Before the first entry with a key that comes strictly after it.
  abbrev pub insert_entry : String → Json → Entries → Entries
  insert_entry k v Entries.done = Entries.entry k v Entries.done
  insert_entry k v (Entries.entry k' v' es) =
      if not (ltb_ℤ (pos 0) (locale_compare k k'))
      then Entries.entry k v (Entries.entry k' v' es)
      else Entries.entry k' v' (insert_entry k v es)

  unfoldable mutual
    pub stable_value : Json → Json
    stable_value Json.undefined = Json.null
    stable_value (Json.array es) = Json.array (stable_elements es)
    stable_value (Json.object es) = Json.object (stable_entries es)
    stable_value v = v

    pub stable_elements : Elements → Elements
    stable_elements Elements.end = Elements.end
    stable_elements (Elements.item v es) = Elements.item (stable_value v) (stable_elements es)

    -- The entries that are undefined are left out, and the others are sorted.
    pub stable_entries : Entries → Entries
    stable_entries Entries.done = Entries.done
    stable_entries (Entries.entry k v es) =
        let rest = stable_entries es in
        if is_undefined v then rest else insert_entry k (stable_value v) rest

-- An object, by the list of its entries.
abbrev pub entries : List (String × Json) → Entries
entries [] = Entries.done
entries ((k, v) ∷ es) = Entries.entry k v (entries es)

abbrev pub object_of : List (String × Json) → Json
object_of es = Json.object (entries es)
