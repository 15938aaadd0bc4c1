-- ===== src/Lib.antt =====
-- Verification of the live streaming data pipeline.
--
-- Producers write readings to one Kafka topic per pipeline. The consumer pool (services/consumer_pool)
-- maps each message to a row of the table that the pipeline declares, inserts the rows in ClickHouse, and
-- then commits the offsets. The task manager (services/task_manager/task_manager) is the API that
-- creates, starts, stops and deletes pipelines; the controller and the watchdog (services/task_manager/
-- controller and watchdog) bring the runtime in line with the state that Redis holds.
--
-- The modules:
--   Base: texts as lists of code points, dictionaries in insertion order, integers, and `Exec`, a call
--     that may raise over an explicit state that comes back beside the exception.
--   Naming: `ch_unique_identifier` of services/task_manager/common/app_common/ch_naming.py.
--   Model: the enums and records of common/app_common/models.py and the options of sources.py.
--   Json: JSON values, and what is taken from Python's standard library (`float`, `fromtimestamp`,
--     `json.loads`, `str`, `repr`) as a parameter.
--   Schema: the DDL of common/app_common/ch_schema.py.
--   Pool.Rows and Pool.ToRow: services/consumer_pool/app/rows.py.
--   Pool.ClickHouse: what the pool relies on of the ClickHouse client and of the clock.
--   Pool.Manager: clickhouse_manager.py, with the sleeps of the retry loop as a list.
--   Pool.Sink: sink.py; a call is a step on the sink's state (manager, known tables, metrics).
--   Pool.Topic, Pool.Consumer and Pool.Batch: main.py, its registry and `_insert_then_commit`.
--   Repo: common/app_common/redis_keys.py and redis_repo.py over an interface of Redis (Repo.Redis).
--   Runtime: the interfaces of the runtime adapters and of provisioning, and the adapter without containers.
--   Sources: the registry of common/app_common/sources.py, with the environment of a connector.
--   Template: `string.Template` of Python, in which the two renderers below put their values.
--   Telegraf: common/app_common/telegraf_config.py; Telegraf.Reader reads TOML's strings and arrays.
--   Kube: common/app_common/runtime/kubernetes_runtime.py over an interface of the cluster (Kube.Cluster).
--   Docker: common/app_common/runtime/docker_runtime.py over an interface of the daemon.
--   Connector: connectors/opcua/connector.py: its configuration, the emitter, the health answer, the loop.
--   Watcher: services/task_manager/task_manager/app/folder_watcher.py and pipeline_definition.py over an
--     interface of the file system (Watcher.Files).
--   Provision: services/task_manager/task_manager/app/provisioning.py; Provision.Drain is its
--     `wait_for_drain`.
--   Leader: the lock of common/app_common/leader_lock.py, a key with the seconds that it has left.
--   Api: the handlers of services/task_manager/task_manager/app/main.py.
--   Controller and Watchdog: the main.py of these two services.
-- The modules named Tests, Codec and Fixture hold runs, and the theorems at concrete inputs.
--
-- A handler is a function from its arguments and the outside world to a result and the world after it.
-- Each service is modelled as the only one that acts between two of its own steps, but for two places
-- where others come between by explicit steps: the processes at the key of the leader lock (Leader.Safety),
-- and the tasks of the folder watcher that outlast its timeout (Watcher.Events). The loops of the
-- model are structural: over the records or partitions of a batch, the columns of a schema, the pipelines
-- of a listing, the files of a directory, the characters of a template, and the six further attempts of the
-- retry loop. Two loops of the program run on fuel. The search of the folder watcher for a free name has
-- one step more than the directory has names, and no more names than those can be taken. The wait for a
-- topic to drain has one round more than its timeout has seconds, and each round but the last sleeps a
-- second. The connector's loop of connection checks has no end of its own: it is asked for a number of
-- rounds, and is still running after them unless a check has raised.
--
-- Not modelled: the mock server, which is for trials; settings, logging, the HTTP server of the health
-- endpoint, the observer threads of the folder watcher; the start and stop of the
-- services. The handlers take a runtime adapter and provisioning as parameters (Runtime). What pydantic
-- validates, YAML, and the clients of Kafka, ClickHouse, Redis, Docker, Kubernetes and OPC UA are
-- parameters; of Python's library so are the texts of floats, `str.lower` and the JSON of a reading. A lost
-- connection to Redis is not modelled. The texts of a few exceptions are shortened. A `float` is its bit
-- pattern.
pub mod Base
pub mod Naming
pub mod Model
pub mod Json
pub mod Pool
pub mod Schema
pub mod Repo
pub mod Runtime
pub mod Api
pub mod Controller
pub mod Watchdog
pub mod Leader
pub mod Watcher
pub mod Provision
pub mod Sources
pub mod Template
pub mod Telegraf
pub mod Connector
pub mod Kube
pub mod Docker
