-- ===== src/Sync/Client/Mutate.antt =====
-- `mutate` of packages/sync-client/src/client.ts: an edit by the user.
use balu_todo.Prelude.{
  String, Bool, true, false, Option, none, some, [], ◌∷◌, ◌++◌, or_else, truthy, if◌then◌else◌,
}
use balu_todo.Dict.{Dict}
use balu_todo.Domain.Types.{
  Args, CommandType, SyncCommand, project_add, section_add, task_add, task_complete, label_add,
  comment_add,
}
use balu_todo.Sync.Apply.{apply_command}
use balu_todo.Sync.Rewrite.{rewrite_command}
use balu_todo.Sync.Client.State.{Client, Env}
use balu_todo.Sync.Client.Storage.{silent, persist_queue, persist_replica}

pub record CommandInput : Type 0 where
  pub type : CommandType
  pub temp_id : Option String
  pub args : Args

-- The ids that `randomUUID` makes up for a command and for a new object.
pub record FreshIds : Type 0 where
  pub uuid : String
  pub temp_id : String

pub record MutateResult : Type 0 where
  pub uuid : String
  pub temp_id : Option String
  pub dropped : Bool

-- `input.type.endsWith("_add")`
abbrev pub is_add : CommandType → Bool
is_add project_add = true
is_add section_add = true
is_add task_add = true
is_add label_add = true
is_add comment_add = true
is_add type = false

abbrev pub temp_id_for : FreshIds → CommandInput → Option String
temp_id_for fresh input =
    if is_add input.type then some (or_else input.temp_id fresh.temp_id) else input.temp_id

-- The day and the offset that `mutate` stamps on a completion.
abbrev pub stamped : Env → CommandType → Args → Args
stamped env task_complete a = record a {
  today = some (or_else a.today env.ctx.today);
  utc_offset = some (or_else a.utc_offset env.utc_offset);
}
stamped env type a = a

-- `if (Object.keys(idAliases).length) rewriteCommandRefs([cmd], idAliases)`
abbrev pub aliased : Dict String → SyncCommand → SyncCommand
aliased [] cmd = cmd
aliased aliases cmd = rewrite_command aliases cmd

-- The command that an edit queues.
unfoldable pub command_of : Env → FreshIds → Dict String → CommandInput → SyncCommand
command_of env fresh aliases input = aliased aliases (record {
  type = input.type;
  uuid = fresh.uuid;
  temp_id = truthy (temp_id_for fresh input);
  args = stamped env input.type input.args;
})

abbrev result_of : FreshIds → CommandInput → Bool → MutateResult
result_of fresh input dropped = record {
  uuid = fresh.uuid;
  temp_id = temp_id_for fresh input;
  dropped = dropped;
}

unfoldable pub mutate : Env → FreshIds → CommandInput → Client → Client × MutateResult
unfolding command_of persist_queue persist_replica
mutate env fresh input c =
    if silent c
    then (c, result_of fresh input true)
    else (let cmd = command_of env fresh c.id_aliases input in
        let c' = record c {
          replica = apply_command env.ctx c.replica cmd;
          queue = c.queue ++ cmd ∷ [];
        } in
        (persist_replica (persist_queue c'), result_of fresh input false))

-- wasSaved; `none` is `undefined`.
unfoldable pub was_saved : Option MutateResult → Bool
was_saved none = false
was_saved (some r) = if r.dropped then false else true
