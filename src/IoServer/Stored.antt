-- ===== src/IoServer/Stored.antt =====
-- What a batch leaves in the cache and in the table.
use prog_playground.Prelude.{
  ℕ, ◌+◌, ◌≤◌, ◌≡◌, ◌≢◌, refl, Option, none, some, List, [], ◌∷◌, map, length, take, codes, ◌↔◌,
  ◌⊎◌, inl, inr,
}
use prog_playground.IoServer.{Text, c_str}
use prog_playground.IoServer.Db.{DbManager}
use prog_playground.IoServer.Request.{
  Effect, cached, inserted, sent, closed, escaped, aborted, text, threw, missing, insert_sql,
  Backend, JsonLibrary, Outcome, success, failure,
}

-- The pairs written to the cache, and the statements that the table took.
abbrev pub cache_of : List Effect → List (Text × Text)
cache_of [] = []
cache_of (cached k v ∷ es) = (k, v) ∷ cache_of es
cache_of (inserted sql ∷ es) = cache_of es
cache_of (sent t ∷ es) = cache_of es
cache_of (closed ∷ es) = cache_of es
cache_of (escaped ∷ es) = cache_of es
cache_of (aborted ∷ es) = cache_of es

abbrev pub table_of : List Effect → List Text
table_of [] = []
table_of (cached k v ∷ es) = table_of es
table_of (inserted sql ∷ es) = sql ∷ table_of es
table_of (sent t ∷ es) = table_of es
table_of (closed ∷ es) = table_of es
table_of (escaped ∷ es) = table_of es
table_of (aborted ∷ es) = table_of es

-- What the table and the cache get of a pair: the texts up to a NUL.
abbrev pub statement : Text × Text → Text
statement (k, v) = c_str (insert_sql k v)

abbrev pub entry : Text × Text → Text × Text
entry (k, v) = (c_str k, c_str v)

module _ (lib : JsonLibrary) where
  open lib use {Json, string_at}

  -- The pair of an item that has both members.
  abbrev pub pair_of : Json → Option (Text × Text)
  pair_of item = elim (string_at item (codes "key")) [
    | missing ↦ none
    | threw what ↦ none
    | text k ↦ elim (string_at item (codes "value")) [
      | missing ↦ none
      | threw what ↦ none
      | text v ↦ some (k, v)
    ]
  ]

  -- The pairs up to the first item that has none.
  abbrev pub pairs_of : List Json → List (Text × Text)
  pairs_of [] = []
  pairs_of (item ∷ rest) = elim (pair_of item) [ none ↦ [] | some p ↦ p ∷ pairs_of rest ]

  -- The first items are in the table, the same and at most one more in the cache; the outcome is
  -- a success exactly if all are in the table.
  pub record IsStored (items : List Json) (r : List Effect × Outcome) : Type 0 where
    pub rows : ℕ
    pub entries : ℕ
    pub no_more : rows ≤ length items
    pub cached_first : rows ≤ entries
    pub one_ahead : entries ≤ rows + 1
    pub table : table_of r.0 ≡ map statement (take rows (pairs_of items))
    pub cache : cache_of r.0 ≡ map entry (take entries (pairs_of items))
    pub all_or_error : (r.1 ≡ success) ↔ (rows ≡ length items)

pub member_cases :
    (lib : JsonLibrary) (item : lib.Json) (name : Text)
    → (lib.string_at item name ≡ missing)
      ⊎ (((what : Text) × (lib.string_at item name ≡ threw what))
          ⊎ ((t : Text) × (lib.string_at item name ≡ text t)))
member_cases lib item name =
    elim (lib.string_at item name)
      as (λ m. (m ≡ missing) ⊎ (((what : Text) × (m ≡ threw what)) ⊎ ((t : Text) × (m ≡ text t)))) [
        | missing ↦ inl refl
        | threw what ↦ inr (inl (what, refl))
        | text t ↦ inr (inr (t, refl))
      ]

module _ (backend : Backend) (db : DbManager) (lib : JsonLibrary) where
  open lib use {Json, string_at}

  -- What one item may lead to.
  abbrev Leads : Option (Text × Text) → List Effect × Outcome → Type 0
  Leads none r = (o : Outcome) × (o ≢ success) × (r ≡ ([], o))
  Leads (some (k, v)) r =
      (r ≡ ([], failure))
      ⊎ ((r ≡ (cached (c_str k) (c_str v) ∷ [], failure))
          ⊎ (r ≡ (cached (c_str k) (c_str v) ∷ inserted (statement (k, v)) ∷ [], success)))
