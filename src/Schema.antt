-- ===== src/Schema.antt =====
-- ClickHouse DDL: services/task_manager/common/app_common/ch_schema.py. The caller has the table name.
use live_streaming_data_pipe.Base.{Text, codes, List, [], ◌∷◌, ◌++◌, join, if◌then◌else◌}
use live_streaming_data_pipe.Base.Dict.{Dict, contains}

-- `DLQ_TABLE`
abbrev pub dlq_table : Text
dlq_table = codes "dead_letter_events"

unfoldable pub create_database_ddl : Text → Text
create_database_ddl database = codes "CREATE DATABASE IF NOT EXISTS " ++ database

-- the items of the generator in `create_table_ddl`
unfoldable pub column_ddls : Dict Text → List Text
column_ddls [] = []
column_ddls ((name, ch_type) ∷ schema) =
    (codes "`" ++ (name ++ (codes "` " ++ ch_type))) ∷ column_ddls schema

unfoldable pub create_table_ddl : Text → Text → Dict Text → Text
unfolding column_ddls contains join
create_table_ddl database table schema =
    let columns = join (codes ", ") (column_ddls schema) in
    let order_by =
      if contains (codes "event_time") schema then codes "event_time" else codes "tuple()" in
    codes "CREATE TABLE IF NOT EXISTS "
    ++ (database
        ++ (codes ".`"
            ++ (table
                ++ (codes "` ("
                    ++ (columns ++ (codes ") ENGINE = MergeTree ORDER BY " ++ order_by))))))

abbrev newline : Text
newline = 10 ∷ []

-- The fixed statement of the dead-letter table.
unfoldable pub create_dlq_table_ddl : Text → Text
create_dlq_table_ddl database =
    newline
    ++ (codes "CREATE TABLE IF NOT EXISTS "
        ++ (database
            ++ (codes "."
                ++ (dlq_table
                    ++ (codes " ("
                        ++ (newline
                            ++ (codes "    failed_at     DateTime64(3) DEFAULT now64(3),"
                                ++ (newline
                                    ++ (codes "    pipeline_id   LowCardinality(String),"
                                        ++ (newline
                                            ++ (codes "    topic         LowCardinality(String),"
                                                ++ (newline
                                                    ++ (codes "    partition     Int32,"
                                                        ++ (newline
                                                            ++ (codes "    offset        Int64,"
                                                            ++ (newline
                                                            ++ (codes "    target_table  String,"
                                                            ++ (newline
                                                            ++ (codes "    error_message String,"
                                                            ++ (newline
                                                            ++ (codes "    payload       String"
                                                            ++ (newline
                                                            ++ (codes ") ENGINE = MergeTree"
                                                            ++ (newline
                                                            ++ (codes
                                                            "PARTITION BY toYYYYMM(failed_at)"
                                                            ++ (newline
                                                            ++ (codes
                                                            "ORDER BY (pipeline_id, failed_at)"
                                                            ++ (newline
                                                            ++ (codes
                                                            "-- The DLQ is a diagnosis and replay surface, not an archive, and `payload` can"
                                                            ++ (newline
                                                            ++ (codes
                                                            "-- be 64KB per row. Replay happens within days of a failure, not months."
                                                            ++ (newline
                                                            ++ (codes
                                                            "TTL toDateTime(failed_at) + INTERVAL 30 DAY"
                                                            ++ newline)))))))))))))))))))))))))))))))))
