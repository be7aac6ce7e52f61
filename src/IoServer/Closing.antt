-- ===== src/IoServer/Closing.antt =====
-- How the handler ends: it closes its connection, or an exception leaves it, or an assertion fails.
use prog_playground.Prelude.{
  ℕ, suc, ◌+◌, ◌≡◌, ◌≢◌, ◌⊎◌, none, List, [], ◌∷◌, Bool, true, false, codes,
}
use prog_playground.IoServer.{Text}
use prog_playground.IoServer.Request.{
  Effect, cached, inserted, sent, closed, escaped, aborted, Request, complete, read_failed,
  client_left, unread, JsonLibrary, missing, Outcome, assertion,
}

abbrev pub closes : List Effect → ℕ
closes [] = 0
closes (closed ∷ es) = suc (closes es)
closes (e ∷ es) = closes es

abbrev pub escapes : List Effect → ℕ
escapes [] = 0
escapes (escaped ∷ es) = suc (escapes es)
escapes (e ∷ es) = escapes es

abbrev pub aborts : List Effect → ℕ
aborts [] = 0
aborts (aborted ∷ es) = suc (aborts es)
aborts (e ∷ es) = aborts es

-- Whether the handler leaves the connection to a later turn.
abbrev pub is_open : Request → Bool
is_open (complete []) = true
is_open (complete (b ∷ bs)) = false
is_open read_failed = false
is_open client_left = false
is_open unread = true

-- Only the databases are called.
abbrev IsDbOnly : List Effect → Type 0
IsDbOnly [] = Unit
IsDbOnly (cached k v ∷ es) = IsDbOnly es
IsDbOnly (inserted sql ∷ es) = IsDbOnly es
IsDbOnly (sent t ∷ es) = ⊥
IsDbOnly (closed ∷ es) = ⊥
IsDbOnly (escaped ∷ es) = ⊥
IsDbOnly (aborted ∷ es) = ⊥

module _ (lib : JsonLibrary) where
  -- An exception leaves only if the response to it has no text, and an assertion fails only for a
  -- member that is not there.
  abbrev pub IsExplained : List Effect → Type 0
  IsExplained es =
      ((escapes es ≡ 0) ⊎ ((what : Text) × (lib.dump (codes "error") what ≡ none)))
      × ((aborts es ≡ 0)
          ⊎ ((item : lib.Json) × (name : Text) × (lib.string_at item name ≡ missing)))

  abbrev Ends : List Effect → Type 0
  Ends es = (closes es + escapes es + aborts es ≡ 1) × IsExplained es

  -- Why a processing ends by an assertion.
  abbrev IsFounded : Outcome → Type 0
  IsFounded o =
      (o ≢ assertion) ⊎ ((item : lib.Json) × (name : Text) × (lib.string_at item name ≡ missing))

  abbrev IsProcessed : List Effect × Outcome → Type 0
  IsProcessed r = IsDbOnly r.0 × IsFounded r.1
