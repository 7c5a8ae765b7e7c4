-- ===== src/Sync/Client/Durable/Edits.antt =====
-- The writes of an edit and of an answer in packages/sync-client/src/client.ts.
use balu_todo.Prelude.{
  ◌++◌, ◌≡◌, refl, sym, ◌∙◌, arith, [], ◌∷◌, List, Bool, true, false, Bool-cases, inl, inr,
  if◌then◌else◌,
}
use balu_todo.Domain.Types.{SyncCommand}
use balu_todo.Sync.Apply.{apply_command}
use balu_todo.Sync.Apply.Keyed.{apply_command-IsKeyedReplica}
use balu_todo.Sync.Protocol.{RejectedCommand, synced, SyncResponse}
use balu_todo.Sync.Client.State.{Client, Options, Env}
use balu_todo.Sync.Client.Mutate.{CommandInput, FreshIds, mutate, command_of}
use balu_todo.Sync.Client.Engine.{push_round, body_read, fold_in, marked, pull_round, unsent}
use balu_todo.Sync.Client.Storage.{
  silent, persist_queue, persist_token, persist_replica, mark_needs_full_sync,
  clear_needs_full_sync,
}
use balu_todo.Sync.Client.Response.{rejected_in, apply_response, settled}
use balu_todo.Sync.Client.Response.Keyed.{apply_response-IsKeyedReplica}
use balu_todo.Sync.Client.Durable.{
  IsDurable, IsSame-IsDurable, saved-IsDurable, pulled-IsDurable, edited-IsDurable,
}
use balu_todo.Sync.Client.Durable.Same.{set_status-IsSame}

if-IsDurable :
    {R : Type 0} (b : Bool) (x y : Client × R)
    → IsDurable x.0
    → (b ≡ false → IsDurable y.0)
    → IsDurable (if b then x else y).0
if-IsDurable true x y h k = h
if-IsDurable false x y h k = k refl

module _ (opts : Options) (env : Env) where
  pub mutate-IsDurable :
      (fresh : FreshIds) (input : CommandInput) (c : Client)
      → IsDurable c
      → IsDurable (mutate env fresh input c).0
  unfolding mutate persist_queue persist_replica
  mutate-IsDurable fresh input c h =
      let cmd = command_of env fresh c.id_aliases input in
      let k = apply_command-IsKeyedReplica env.ctx c.replica cmd h.keyed in
      let c' = record c {
        replica = apply_command env.ctx c.replica cmd;
        queue = c.queue ++ cmd ∷ [];
      } in
      if-IsDurable (silent c) _ _ h (λ e. edited-IsDurable c' e h.hydrated k h.token h.marker)

  clear_needs_full_sync-IsDurable :
      (b : Bool) (c : Client) → IsDurable c → IsDurable (if b then clear_needs_full_sync c else c)
  unfolding clear_needs_full_sync
  clear_needs_full_sync-IsDurable true c h = ground arith
  clear_needs_full_sync-IsDurable false c h = h

  marked-IsDurable :
      (xs : List RejectedCommand) (c : Client) → IsDurable c → IsDurable (marked xs c)
  unfolding mark_needs_full_sync
  marked-IsDurable [] c h = h
  marked-IsDurable (x ∷ xs) c h = elim (Bool-cases (silent c)) [
    | inl e ↦ rw e h
    | inr e ↦ rw e (record {
      hydrated = h.hydrated;
      keyed = h.keyed;
      queue = h.queue;
      replica = h.replica;
      token = h.token;
      marker = λ o. refl;
    })
  ]

  fold_in-IsDurable :
      (batch : List SyncCommand) (resp : SyncResponse) (c : Client)
      → IsDurable c
      → IsDurable (fold_in opts env batch resp c)
  unfolding fold_in apply_response
  fold_in-IsDurable batch resp c h =
      let remaining = unsent batch c.queue in
      let c3 = record (apply_response env.ctx resp remaining c) {
        queue = settled resp remaining;
      } in
      let h4 =
        saved-IsDurable c3 h.hydrated
          (apply_response-IsKeyedReplica env.ctx resp remaining c h.keyed) h.marker in
      let c4 = persist_replica (persist_token (persist_queue c3)) in
      let c5 = if resp.full_sync then clear_needs_full_sync c4 else c4 in
      let h5 = clear_needs_full_sync-IsDurable resp.full_sync c4 h4 in
      record {
        hydrated = h5.hydrated;
        keyed = h5.keyed;
        queue = h5.queue;
        replica = h5.replica;
        token = h5.token;
        marker = h5.marker;
      }

  pub push_round-IsDurable :
      (batch : List SyncCommand) (resp : SyncResponse) (c : Client)
      → IsDurable c
      → IsDurable (push_round opts env batch resp c)
  unfolding push_round
  push_round-IsDurable batch resp c h =
      let c1 = body_read opts c in
      let h1 = IsSame-IsDurable c c1 (ground arith) h in
      fold_in-IsDurable batch resp _ (marked-IsDurable (rejected_in batch resp) c1 h1)

  pub pull_round-IsDurable :
      (resp : SyncResponse) (c : Client)
      → resp.temp_id_mapping ≡ []
      → IsDurable c
      → IsDurable (pull_round opts env resp c)
  unfolding pull_round apply_response
  pull_round-IsDurable resp c empty h =
      let c1 = apply_response env.ctx resp c.queue (body_read opts c) in
      let same : settled resp c.queue ≡ c.queue = rw empty in
      let h2 =
        pulled-IsDurable c1 h.hydrated
          (apply_response-IsKeyedReplica env.ctx resp c.queue (body_read opts c) h.keyed)
          (λ o. h.queue o ∙ sym same) h.marker in
      let h3 =
        clear_needs_full_sync-IsDurable resp.full_sync (persist_replica (persist_token c1)) h2 in
      IsSame-IsDurable _ _ (set_status-IsSame opts env synced _) h3
