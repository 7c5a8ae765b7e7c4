-- ===== src/Sync/Client/Drain/Distinct.antt =====
-- Queues whose commands have different uuids, in packages/sync-client/src/client.ts.
use balu_todo.Prelude.{
  String, ◌≡◌, ◌==◌, refl, ap, [], ◌∷◌, ◌++◌, List, false, Bool-cases, inl, inr, All,
}
use balu_todo.Dict.{Dict}
use balu_todo.Domain.Types.{SyncCommand}
use balu_todo.Sync.Protocol.{SyncResponse}
use balu_todo.Sync.Rewrite.{rewrite_command_refs}
use balu_todo.Sync.Client.Response.{settled, has_mapping}
use balu_todo.Sync.Client.Rounds.{uuids, IsNew}

-- No two commands have one uuid.
abbrev pub IsDistinct : List SyncCommand → Type 0
IsDistinct [] = Unit
IsDistinct (cmd ∷ queue) =
    All (λ (b : SyncCommand). (cmd.uuid == b.uuid) ≡ false) queue × IsDistinct queue

uuids-rewrite_command_refs :
    (mapping : Dict String) (queue : List SyncCommand)
    → uuids (rewrite_command_refs mapping queue) ≡ uuids queue
unfolding rewrite_command_refs
uuids-rewrite_command_refs mapping [] = refl
uuids-rewrite_command_refs mapping (cmd ∷ queue) =
    ap (λ l. cmd.uuid ∷ l) (uuids-rewrite_command_refs mapping queue)

pub uuids-settled :
    (resp : SyncResponse) (queue : List SyncCommand) → uuids (settled resp queue) ≡ uuids queue
uuids-settled resp queue = elim (Bool-cases (has_mapping resp)) [
  | inl e ↦ rw e (uuids-rewrite_command_refs resp.temp_id_mapping queue)
  | inr e ↦ rw e
]

All-rewritten :
    (mapping : Dict String) (uuid : String) (queue : List SyncCommand)
    → All (λ (b : SyncCommand). (uuid == b.uuid) ≡ false) queue
    → All (λ (b : SyncCommand). (uuid == b.uuid) ≡ false) (rewrite_command_refs mapping queue)
unfolding rewrite_command_refs
All-rewritten mapping uuid [] h = tt
All-rewritten mapping uuid (b ∷ queue) (p, h) = (p, All-rewritten mapping uuid queue h)

IsDistinct-rewritten :
    (mapping : Dict String) (queue : List SyncCommand)
    → IsDistinct queue
    → IsDistinct (rewrite_command_refs mapping queue)
unfolding rewrite_command_refs
IsDistinct-rewritten mapping [] h = tt
IsDistinct-rewritten mapping (cmd ∷ queue) (p, h) =
    (All-rewritten mapping cmd.uuid queue p, IsDistinct-rewritten mapping queue h)

pub IsDistinct-settled :
    (resp : SyncResponse) (queue : List SyncCommand)
    → IsDistinct queue
    → IsDistinct (settled resp queue)
IsDistinct-settled resp queue h = elim (Bool-cases (has_mapping resp)) [
  | inl e ↦ rw e (IsDistinct-rewritten resp.temp_id_mapping queue h)
  | inr e ↦ rw e h
]

All-end :
    (P : SyncCommand → Type 0) (batch rest : List SyncCommand) → All P (batch ++ rest) → All P rest
All-end P [] rest h = h
All-end P (b ∷ batch) rest (p, h) = All-end P batch rest h

pub IsDistinct-end : (batch rest : List SyncCommand) → IsDistinct (batch ++ rest) → IsDistinct rest
IsDistinct-end [] rest h = h
IsDistinct-end (b ∷ batch) rest (p, h) = IsDistinct-end batch rest h

IsNew-cons :
    (b : SyncCommand) (batch rest : List SyncCommand)
    → All (λ (x : SyncCommand). (b.uuid == x.uuid) ≡ false) rest
    → All (IsNew batch) rest
    → All (IsNew (b ∷ batch)) rest
IsNew-cons b batch [] p h = tt
IsNew-cons b batch (x ∷ rest) (q, p) (g, h) = (rw (q, g), IsNew-cons b batch rest p h)

-- No command behind a batch has the uuid of one in it.
pub IsNew-rest :
    (batch rest : List SyncCommand) → IsDistinct (batch ++ rest) → All (IsNew batch) rest
IsNew-rest [] rest h = nothing_in rest
  where
    nothing_in : (xs : List SyncCommand) → All (IsNew []) xs
    nothing_in [] = tt
    nothing_in (x ∷ xs) = (refl, nothing_in xs)
IsNew-rest (b ∷ batch) rest (p, h) =
    IsNew-cons b batch rest (All-end _ batch rest p) (IsNew-rest batch rest h)
