-- ===== src/Lib.antt =====
-- Grimnir: room occupancy from Wi-Fi channel state information (CSI). This library models the Python
-- services and states what makes them correct.
--
-- The parts, and how they interact:
--   Geri (geri/) receives UDP datagrams from the boards, parses them, queues the packets, and writes
--     them to the database in batches.
--   Freki (freki/) is the REST backend over the database: training jobs and the reaper of orphaned
--     ones, the model registry, the paged training data, the rooms and labels, and the secrets that guard them.
--   Nornir (nornir/) claims jobs from Freki, reads the training data page by page, cuts it into
--     windows, and uploads the model that it fits.
--   Volva (volva/) loads the active model, reads the live stream of CSI rows, and publishes which
--     rooms are occupied.
--   Mimir (mimir/) holds the table definitions that the others share.
--
-- Which file models which code:
--   Base and its children: conditionals, lists and tables, texts, dictionaries, HTTP replies.
--   Geri/Packet: parse_packet of geri/src/geri/parser.py and the layout of docs/udp-wire-protocol.md.
--     Bytes and Parse are the parser, Layout is an encoder written from the document.
--   Geri/Writer: CSIUDPProtocol and batch_writer of geri/src/geri/main.py. `Protocol` holds the fields
--     of the protocol object with the queue and counters, `Writer` the local variables of the loop
--     and the rows written; each turn of the loop is a `WriterEvent`, and `Ending` says at which await
--     the writer is cancelled.
--   Geri/Receivers: geri/src/geri/db.py over the tables of receivers, samples and heartbeats.
--   Freki/Auth: require_ml_control_secret of freki/src/freki/ml_auth.py and
--     require_model_upload_secret of freki/src/freki/routers/models.py.
--   Freki/Jobs: freki/src/freki/routers/training_jobs.py and freki/src/freki/orphan_reaper.py over
--     TrainingJob of mimir/src/csi_models/models.py. Handlers has one function for each endpoint that
--     writes, and Lifecycle the relation of the tables that requests and reaper passes can reach, in
--     any order.
--   Freki/Models: freki/src/freki/routers/models.py over TrainedModel of mimir/src/csi_models/models.py.
--   Freki/TrainingData: freki/src/freki/routers/training_data.py, and iter_training_data of
--     nornir/src/nornir/freki_client.py that reads it.
--   Freki/Rooms: freki/src/freki/routers/rooms.py over the columns that hold a room's name.
--   Freki/Labels: freki/src/freki/routers/labels.py over the tables of labels and samples.
--   Freki/Predictions: freki/src/freki/routers/predictions.py.
--   Freki/Daemons: freki/src/freki/routers/training_daemons.py.
--   Nornir/Client: nornir/src/nornir/freki_client.py. A call works on the state of a `Server`, the record of
--     the requests that it sends; Endpoints makes one of Freki's handlers, behind a network that may lose
--     messages and with other clients at work between the requests.
--   Nornir/Daemon: nornir/src/nornir/main.py over those calls. Defs has the run of a job and the claim
--     loop, Main the registration and the loop of `main`.
--   Nornir/Windows: _windows and _collect_windows of nornir/src/nornir/train.py.
--   Nornir/Train: _fit_model, _serialize and run_job of nornir/src/nornir/train.py, on the rows that the
--     client's stream delivers.
--   Mimir/Features: mimir/src/csi_models/features.py.
--   Mimir/Migrate: mimir/src/csi_models/migrate.py. A `Schema` is the data with the table of the
--     migrations that ran.
--   Volva/Predict: volva/src/volva/predict.py. Defs has the functions, Loop the loop as a step over
--     what the event source delivers.
--   Volva/Loader: volva/src/volva/model_loader.py; the holder is the model that it holds.
--
-- Conventions. A table is the list of its rows, and a statement that runs alone in its transaction is
-- one step. Times are whole ticks; clock readings, generated tokens and the answers of the database or
-- of another service are arguments. A reply is `ok` with a body or `http` with a status, where 500 is
-- an exception that no handler catches. A text is the list of its code points, a byte a number below
-- 256, and a float32 its bit pattern.
--
-- Bounds and fuel. The loops are structural recursion over what they consume, except the client's
-- paging, whose fuel is the number of requests: it needs one more than there are rows. The constants
-- are those of the code: five votes, at most 5000 rows a page and 32 rooms a request.
--
-- Arguments that stand for code outside the repository: the classifier (Volva/Predict), joblib.load
-- (Volva/Loader), scikit-learn and joblib.dump (Nornir/Train), reading JSON and the validation of a
-- feature configuration (Freki/Models), JSON, base64 and datetime in a cursor and the white-space
-- test (Freki/TrainingData), the order in which PostgreSQL runs the two updates of an activation
-- (Freki/Models), its failures on the sample tables (Freki/Rooms, Freki/Labels), its test of
-- addresses (Freki/Daemons, Geri/Receivers), SHA-256 (Mimir/Migrate, Geri/Receivers), running a SQL
-- script and the pattern of file names (Mimir/Migrate), and the mean and the variance of a column
-- (Mimir/Features). What run_job returns, how often a timer runs out, and which messages are lost
-- are arguments of Nornir/Daemon and Nornir/Client. Two arguments are code of the repository: the
-- paging of Freki/TrainingData takes any cursor codec (Cursor models the one of the endpoint), and
-- Volva/Predict any prediction on a window (Mimir/Features models its feature extraction).
--
-- Not modelled: the range of a room's floor (a SMALLINT column), the unique index on the tokens of
-- claims, the building of the paging request from the room names; the stream of CSI rows and the
-- read-only statistics of Freki, the heartbeat of the daemon row of Nornir, and the creation of a
-- missing database by Mimir; logging, metrics, sessions and process start-up, which are glue; the
-- firmware, the dashboard and the deployment files, which are not Python.
pub mod Base
pub mod Freki
pub mod Geri
pub mod Mimir
pub mod Nornir
pub mod Volva
