-- ===== src/Provision.antt =====
-- services/task_manager/task_manager/app/provisioning.py: the topic and the table of a pipeline, over the
-- Kafka admin client and the ClickHouse client.
pub mod Drain
pub mod Drained
pub mod Ended
pub mod Tests
use live_streaming_data_pipe.Base.{
  ℕ, Text, codes, starts_with, Bool, false, ◌||◌, List, [], ◌∷◌, ◌++◌, ◌==◌, if◌then◌else◌,
}
use live_streaming_data_pipe.Base.Int.{ℤ, pos, negsuc, int_str}
use live_streaming_data_pipe.Base.Exec.{
  Exc, runtime_error, Result, ok, err, Exec, pure, raise, ◌>>=◌, ◌>>◌,
}
use live_streaming_data_pipe.Naming.{Named, name, refused}
use live_streaming_data_pipe.Model.{PipelineConfig, table_of}
use live_streaming_data_pipe.Schema.{create_database_ddl, create_table_ddl}
use live_streaming_data_pipe.Api.Records.{bad_identifier}

-- The calls of the two clients.
pub record Clients (World : Type 0) : Type 0 where
  pub admin_start : Exec World (Unit {0})
  pub admin_close : Exec World (Unit {0})
  -- `create_topics` of one topic, with its partitions and its replication factor
  pub create_topics : Text → ℕ → ℕ → Exec World (Unit {0})
  -- `delete_topics` of one topic: the topics and the codes of the response
  pub delete_topics : Text → Exec World (List (Text × ℤ))
  pub get_client : Exec World (Unit {0})
  pub client_close : Exec World (Unit {0})
  pub command : Text → Exec World (Unit {0})

-- `part in text`
unfoldable pub has_part : Text → Text → Bool
has_part part [] = starts_with [] part
has_part part (c ∷ s) = starts_with (c ∷ s) part || has_part part s

-- the test of the handler in `create_topic`
unfoldable pub is_already_there : Exc → Bool
unfolding has_part
is_already_there e =
    has_part (codes "TopicAlreadyExists") e.name || has_part (codes "already exists") e.message

-- `code in (0, 3)`
unfoldable pub is_deleted : ℤ → Bool
is_deleted (pos n) = n == 0 || n == 3
is_deleted (negsuc n) = false

abbrev pub not_deleted : Text → ℤ → Exc
not_deleted topic code = record {
  kind = runtime_error;
  name = codes "RuntimeError";
  message =
      codes "deleting topic "
      ++ (topic ++ (codes " failed with Kafka error code " ++ int_str code));
}

module _ {World : Type 0} where
  abbrev pub after_close : {A : Type 0} → Result A → Result (Unit {0}) × World → Result A × World
  after_close r (ok u, w) = (r, w)
  after_close r (err e, w) = (err e, w)

  -- `try: … finally: …`
  abbrev pub finally_do : {A : Type 0} → Exec World A → Exec World (Unit {0}) → Exec World A
  finally_do body close w = let (r, w') = body w in after_close r (close w')

  module _ (clients : Clients World) (database : Text) where
    abbrev pub unless_there : Result (Unit {0}) × World → Result (Unit {0}) × World
    unless_there (ok u, w) = (ok u, w)
    unless_there (err e, w) = (if is_already_there e then ok tt else err e, w)

    unfoldable pub create_topic : PipelineConfig → Exec World (Unit {0})
    unfolding is_already_there ◌>>=◌
    create_topic config = do
      clients.admin_start
      finally_do (λ w. unless_there (clients.create_topics config.topic 1 1 w)) clients.admin_close

    abbrev pub command_named : PipelineConfig → Named → Exec World (Unit {0})
    command_named config (name table) =
        clients.command (create_table_ddl database table config.table_schema)
    command_named config (refused e) = raise bad_identifier

    abbrev pub return_name : Named → Exec World Text
    return_name (name table) = pure table
    return_name (refused e) = raise bad_identifier

    unfoldable pub create_table : PipelineConfig → Exec World Text
    unfolding create_database_ddl create_table_ddl table_of ◌>>=◌
    create_table config = do
      clients.get_client
      finally_do
          (clients.command (create_database_ddl database) >> command_named config (table_of config))
          clients.client_close
      return_name (table_of config)

    -- the loop over `response.topic_error_codes`
    unfoldable pub check_codes : List (Text × ℤ) → Result (Unit {0})
    unfolding is_deleted
    check_codes [] = ok tt
    check_codes ((topic, code) ∷ rest) =
        let later = check_codes rest in
        if is_deleted code then later else err (not_deleted topic code)

    unfoldable pub delete_topic : PipelineConfig → Exec World (Unit {0})
    unfolding check_codes ◌>>=◌
    delete_topic config = do
      clients.admin_start
      response ← finally_do (clients.delete_topics config.topic) clients.admin_close
      λ w. (check_codes response, w)

    unfoldable pub provision : PipelineConfig → Exec World (Unit {0})
    unfolding create_topic create_table ◌>>=◌
    provision config = do create_topic config; table ← create_table config; pure tt
