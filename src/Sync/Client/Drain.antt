-- ===== src/Sync/Client/Drain.antt =====
-- The rounds of one `flush` of packages/sync-client/src/client.ts, when the server answers each push
-- and the user makes no edit meanwhile.
pub mod Distinct
use mathlib.Core.Path.{subst}
use mathlib.Core.List.{map-append}
use balu_todo.Prelude.{
  ℕ, zero, suc, String, ◌≡◌, ◌≤◌, ◌==◌, refl, sym, ap, ◌∙◌, arith, length, take, drop,
  take-append-drop, [], ◌∷◌, ◌++◌, List, true, false, Bool, Bool-cases, inl, inr, All,
}
use balu_todo.Dict.{Dict}
use balu_todo.Domain.Types.{SyncCommand}
use balu_todo.Sync.Protocol.{SyncResponse, synced}
use balu_todo.Sync.Rewrite.{rewrite_command_refs}
use balu_todo.Sync.Client.State.{Client, Options, Env}
use balu_todo.Sync.Client.Storage.{
  silent, persist_queue, persist_token, persist_replica, clear_needs_full_sync,
}
use balu_todo.Sync.Client.Retry.{set_status, mark_syncing, held_back}
use balu_todo.Sync.Client.Response.{rejected_in, settled, apply_response, has_mapping}
use balu_todo.Sync.Client.Batch.Bounds.{IsBounded}
use balu_todo.Sync.Client.Batch.Flight.{batching-mark_syncing, push_round-IsBounded}
use balu_todo.Sync.Client.Durable.Same.{mark_syncing-IsSame, after_flush-IsSame, set_status-IsSame}
use balu_todo.Sync.Client.Rounds.{uuids, IsNew, IsPushed, push_round-IsPushed, silent-marked}
use balu_todo.Sync.Client.Drain.Distinct.{
  IsDistinct, uuids-settled, IsDistinct-settled, IsDistinct-end, IsNew-rest,
}
use balu_todo.Sync.Client.Engine.{
  System, Flight, grounded, pushing, pulling, Notices, pull_start, after_flush, push_next,
  push_more, push_round, push_answer, flush_start, no_notices, noted, fold_in, body_read,
}

-- The system after the answers, in order, and the uuids of the commands that were pushed.
unfoldable pub respond :
    Options → List (Env × SyncResponse) → Client → Flight → System × List String
respond opts ((env, resp) ∷ answers) c (pushing batch owed) =
    let s = push_answer opts env batch owed resp c in
    let later = respond opts answers s.client s.flight in (later.0, uuids batch ++ later.1)
respond opts answers c flight = (record { client = c; flight = flight }, [])

abbrev pub is_pushing : Flight → Bool
is_pushing (pushing batch owed) = true
is_pushing f = false

module _ (opts : Options) where
  silent-push_round :
      (env : Env) (batch : List SyncCommand) (resp : SyncResponse) (c : Client)
      → silent c ≡ false
      → silent (push_round opts env batch resp c) ≡ false
  unfolding push_round fold_in persist_queue persist_token persist_replica clear_needs_full_sync
      apply_response
  silent-push_round env batch resp c h =
      ground (arith, silent-marked (rejected_in batch resp) (body_read opts c) ∙ h)

  -- Nothing that is not a push is answered here.
  respond_idle :
      (answers : List (Env × SyncResponse)) (c : Client) (f : Flight)
      → is_pushing f ≡ false
      → respond opts answers c f ≡ (record { client = c; flight = f }, [])
  unfolding respond
  respond_idle [] c f h = refl
  respond_idle (a ∷ answers) c grounded h = refl
  respond_idle (a ∷ answers) c (pulling owed) h = refl
  respond_idle (a ∷ answers) c (pushing batch owed) h = absurd (cc)

  after_flush-idle :
      (env : Env) (owed : Notices) (c : Client)
      → is_pushing (after_flush opts env owed c).flight ≡ false
  unfolding after_flush pull_start
  after_flush-idle env owed c = ground arith

-- What a run of the rounds leaves, of the queue that it starts with.
pub record IsDrained (queue : List SyncCommand) (r : System × List String) : Type 0 where
  pub queue_empty : r.0.client.queue ≡ []
  pub over : is_pushing r.0.flight ≡ false
  pub sent : r.1 ≡ uuids queue

length-drop : (n : ℕ) (q : List SyncCommand) → length (drop n q) ≤ length q
length-drop zero q = omega arith
length-drop (suc n) [] = omega arith
length-drop (suc n) (x ∷ q) = ground (arith, length-drop n q)

length-drop_cons :
    (n : ℕ) (cmd : SyncCommand) (q : List SyncCommand)
    → 1 ≤ n
    → length (drop n (cmd ∷ q)) ≤ length q
length-drop_cons zero cmd q h = absurd (omega arith)
length-drop_cons (suc n) cmd q h = length-drop n q

length-uuids : (q : List SyncCommand) → length (uuids q) ≡ length q
length-uuids [] = refl
length-uuids (x ∷ q) = ap suc (length-uuids q)

module _ (opts : Options) (positive : 1 ≤ opts.max_batch) where
  -- The answer to the push of a queue's head goes on with the rest.
  push_answer_active :
      (env : Env) (batch : List SyncCommand) (owed : Notices) (resp : SyncResponse) (c : Client)
      → silent c ≡ false
      → push_answer opts env batch owed resp c
        ≡ push_more opts env
            (push_round opts env batch resp c).queue
            (noted batch resp owed)
            (push_round opts env batch resp c)
  unfolding push_answer
  push_answer_active env batch owed resp c h =
      let open_client : c.closed ≡ false = ground arith in rw (open_client, push_answer)

  IsDrained-at_end :
      (answers : List (Env × SyncResponse)) (env : Env) (owed : Notices) (c : Client)
      → c.queue ≡ []
      → IsDrained [] (
          respond opts answers
            (push_more opts env [] owed c).client
            (push_more opts env [] owed c).flight)
  unfolding push_more
  IsDrained-at_end answers env owed c e =
      let c1 = set_status opts env synced c in
      let c2 = record c1 { flushing = false } in
      let s = after_flush opts env owed c2 in
      subst (IsDrained [])
        (sym (respond_idle opts answers s.client s.flight (after_flush-idle opts env owed c2)))
        (record {
          queue_empty =
              (after_flush-IsSame opts env owed c2).queue
              ∙ (set_status-IsSame opts env synced c).queue
              ∙ e;
          over = after_flush-idle opts env owed c2;
          sent = refl;
        })

  -- What is left of a queue after its first batch.
  behind : Client → List SyncCommand
  behind c = drop c.batching.size c.queue

  batch_of : Client → List SyncCommand
  batch_of c = take c.batching.size c.queue

  uuids-behind :
      (c c' : Client) (resp : SyncResponse)
      → c'.queue ≡ settled resp (behind c)
      → uuids c'.queue ≡ uuids (behind c)
  uuids-behind c c' resp e = ap uuids e ∙ uuids-settled resp (behind c)

  batch_then_rest :
      (c : Client) (q : List SyncCommand)
      → c.queue ≡ q
      → uuids (batch_of c) ++ uuids (behind c) ≡ uuids q
  unfolding batch_of behind
  batch_then_rest c q e =
      sym (map-append (λ (b : SyncCommand). b.uuid) (batch_of c) (behind c))
      ∙ ap uuids (take-append-drop c.batching.size c.queue ∙ e)

  shorter :
      (c c' : Client) (resp : SyncResponse) (cmd : SyncCommand) (q : List SyncCommand)
      → c.queue ≡ cmd ∷ q
      → 1 ≤ c.batching.size
      → c'.queue ≡ settled resp (behind c)
      → length c'.queue ≤ length q
  unfolding behind
  shorter c c' resp cmd q e h w =
      let same : length c'.queue ≡ length (behind c) =
        sym (length-uuids c'.queue)
        ∙ ap length (uuids-behind c c' resp w)
        ∙ length-uuids (behind c) in
      let known : length (behind c) ≡ length (drop c.batching.size (cmd ∷ q)) =
        ap (λ l. length (drop c.batching.size l)) e in
      omega (arith, same, known, length-drop_cons c.batching.size cmd q h)

  -- The state of the round that answers a push of the head of the queue.
  module _ (env : Env) (resp : SyncResponse) (c : Client) (o : silent c ≡ false)
      (d : IsDistinct c.queue) where
    after_round : Client
    after_round = push_round opts env (batch_of c) resp c

    round-IsPushed : IsPushed env (batch_of c) (behind c) resp c after_round
    unfolding batch_of behind after_round
    round-IsPushed =
        let whole : c.queue ≡ batch_of c ++ behind c =
          sym (take-append-drop c.batching.size c.queue) in
        push_round-IsPushed opts env (batch_of c) (behind c) resp c o whole
          (IsNew-rest (batch_of c) (behind c) (subst IsDistinct whole d))

    after_round-IsDistinct : IsDistinct after_round.queue
    unfolding batch_of behind
    after_round-IsDistinct =
        let whole : c.queue ≡ batch_of c ++ behind c =
          sym (take-append-drop c.batching.size c.queue) in
        subst IsDistinct (sym round-IsPushed.queue) (
          IsDistinct-settled resp (behind c)
            (IsDistinct-end (batch_of c) (behind c) (subst IsDistinct whole d)))

    after_round-IsDrained :
        (q : List SyncCommand) (r : System × List String)
        → c.queue ≡ q
        → IsDrained after_round.queue r
        → IsDrained q (r.0, uuids (batch_of c) ++ r.1)
    after_round-IsDrained q r e h = record {
      queue_empty = h.queue_empty;
      over = h.over;
      sent =
          ap (λ l. uuids (batch_of c) ++ l)
            (h.sent ∙ uuids-behind c after_round resp round-IsPushed.queue)
          ∙ batch_then_rest c q e;
    }

  drained :
      (answers : List (Env × SyncResponse)) (env : Env) (owed : Notices) (c : Client)
      (q : List SyncCommand)
      → c.queue ≡ q
      → silent c ≡ false
      → IsBounded opts.max_batch c.batching
      → IsDistinct q
      → length q ≤ length answers
      → IsDrained q (
          respond opts answers
            (push_more opts env q owed c).client
            (push_more opts env q owed c).flight)
  unfolding push_more push_next respond batch_of after_round
  drained answers env owed c [] e o b d l = IsDrained-at_end answers env owed c e
  drained [] env owed c (cmd ∷ q) e o b d l = absurd (omega arith)
  drained ((env', resp) ∷ answers) env owed c (cmd ∷ q) e o b d l =
      let d' = subst IsDistinct (sym e) d in
      let c' = after_round env' resp c o d' in
      let p = round-IsPushed env' resp c o d' in
      let ih =
        drained answers env' (noted (batch_of c) resp owed) c' c'.queue refl
          (silent-push_round opts env' (batch_of c) resp c o)
          (push_round-IsBounded opts env' (batch_of c) resp c b)
          (after_round-IsDistinct env' resp c o d')
          (omega (arith, shorter c c' resp cmd q e (ground arith) p.queue)) in
      subst
        (λ (s : System). IsDrained (cmd ∷ q) (
          (respond opts answers s.client s.flight).0,
          uuids (batch_of c) ++ (respond opts answers s.client s.flight).1,
        ))
        (sym (push_answer_active env' (batch_of c) owed resp c o))
        (after_round-IsDrained env' resp c o d' (cmd ∷ q) _ e ih)

module _ (opts : Options) (env : Env) (c : Client) where
  abbrev flushing_now : Client
  flushing_now = mark_syncing opts env (record c { flushing = true })

  silent-flushing_now : silent flushing_now ≡ silent c
  unfolding mark_syncing set_status
  silent-flushing_now = ground arith

  flush_start_active :
      (cmd : SyncCommand) (q : List SyncCommand)
      → c.queue ≡ cmd ∷ q
      → silent c ≡ false
      → c.flushing ≡ false
      → held_back env c ≡ false
      → flush_start opts env c ≡ push_more opts env (cmd ∷ q) no_notices flushing_now
  unfolding push_more flush_start
  flush_start_active cmd q e o f t = ground arith

-- If a flush starts (the client writes, is not flushing already and is not asked to wait), every
-- push of it is answered and the user makes no edit meanwhile, then it ends after at most as many
-- answers as commands were queued: nothing is in flight for the queue, the queue is empty, and the
-- pushed commands were those of the queue, each once and in order. The commands have different uuids,
-- and the batch size is within its bounds.
pub flush-IsDrained :
    (opts : Options) (env : Env) (answers : List (Env × SyncResponse)) (c : Client)
    (cmd : SyncCommand) (q : List SyncCommand)
    → c.queue ≡ cmd ∷ q
    → silent c ≡ false
    → c.flushing ≡ false
    → held_back env c ≡ false
    → 1 ≤ opts.max_batch
    → IsBounded opts.max_batch c.batching
    → IsDistinct (cmd ∷ q)
    → length (cmd ∷ q) ≤ length answers
    → IsDrained
        (cmd ∷ q)
        (respond opts answers (flush_start opts env c).client (flush_start opts env c).flight)
flush-IsDrained opts env answers c cmd q e o f t positive b d l =
    let c2 = flushing_now opts env c in
    subst (λ (s : System). IsDrained (cmd ∷ q) (respond opts answers s.client s.flight))
      (sym (flush_start_active opts env c cmd q e o f t))
      (drained opts positive answers env no_notices c2 (cmd ∷ q)
        ((mark_syncing-IsSame opts env (record c { flushing = true })).queue ∙ e)
        (silent-flushing_now opts env c ∙ o)
        (subst (IsBounded opts.max_batch)
          (sym (batching-mark_syncing opts env (record c { flushing = true }))) b)
        d l)
