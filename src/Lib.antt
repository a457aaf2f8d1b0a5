-- ===== src/Lib.antt =====
-- Snipr watches Twitch chat and clips the moments that a model calls hype. A line of IRC is parsed
-- to a chat message, the message goes over a bus to three consumers (an SQLite store, the monitor
-- of 24-second windows, an Elasticsearch indexer), each window becomes a vector of eight features,
-- and a vector with a high probability asks for a clip, at most one per channel in 30 seconds.
--
-- The files and the parts of the program:
-- - Ingest/Parser: internal/ingest/parser.go. `parse_irc_line` is ParseIRCLine, with its five
--   numbered steps as `take_tags`, `take_prefix`, `take_command`, `command` and `chat_message`;
--   `parse_emotes` is parseEmotes and `unescape_tag_value` is unescapeTagValue. Wire has the lines
--   that Twitch sends, Failures the lines that are refused.
-- - Ingest/Client: internal/ingest/client.go. A client has a connection, which lists the messages
--   that it took, and the channels it joined; `connect`, `join`, `part`, `close`, `write_line` are
--   the methods of these names, and `start` is the loop of Start over the frames that come in. Membership
--   is about the channels, Frames about the messages and the PINGs of a frame.
-- - Models: internal/models. Features: internal/features. `simple_normalize` (Normalize) and
--   `hype_score` (Hype) are of normalize.go, `compute_window_features` (Compute) of compute.go, and
--   `on_chat` and `flush_ready` (Monitor) of monitor.go. Hype/Chosen is about the word that a candidate
--   votes for, Hype/Votes about the words that are counted.
-- - Store: internal/store/sqlite.go. The state has the rows of the table and the buffer.
-- - Pipeline: internal/pipeline/consumers.go. Cooldown has tryCooldown and IsInCooldown, Clip has
--   normalizeTS, onFeatures, createClip and indexClip (and Decide of internal/predict/predictor.go),
--   Start has Start, Stop and the four handlers, as deliveries that may come in any order: Routing is
--   about what reaches the table and the windows, Clips about when clips are attempted,
--   Chat about the whole way from a frame over the bus to the table.
--   Clip/Granted puts the client of internal/twitch in for the interface that Clip takes.
-- - Analytics: internal/analytics/elastic.go and models.go. Documents are queued by `index_chat` and
--   `index_clip` and sent by `flush_batch`; Worker has the goroutine of the worker, the callers and
--   Close as a step relation, in which any goroutine may take the next step. Ending is about how the
--   worker comes to its end, Pairs about the body of a request.
-- - Twitch: internal/twitch/helix.go. `get_user_id`, `create_clip` and `poll_clip_status` are
--   the methods of these names over the answers of HTTP; Answers is about the answers that make
--   a request succeed, Cache about the ids that are kept, and Poll about how a poll ends.
-- - Bus: internal/bus/nats.go. `new_nats_bus` is NewNATSBus over the answers of the NATS library, with
--   what runs when it returns; `publish_chat` and `publish_features` give the message that a stream
--   takes, and `on_msg` is the handler that both subscriptions give to NATS. Ids is about the ids of
--   windows, Delivery about what is published.
-- - Predict: internal/predict/predictor.go. `load_xgb` is LoadXGB over the files there are, and
--   `predict_proba` the method of this name.
-- - Auth: internal/auth. Token is of token.go, OAuth of client.go (each request, and what becomes of
--   its answer), Server of server.go (`handle_callback`, and the channel that WaitForCode reads), Manager
--   of manager.go, over the files of a `Storage` (`ensure_valid_token` is EnsureValidToken, its steps are `after_validation`,
--   `after_refresh` and `after_login`), and Env of env.go.
-- - Cli: cmd/chat-cli/main.go. `loop` is the input loop over what is typed, `execute` the switch over the
--   commands; they call the client of Ingest and read the other parts through a `View`. Session is
--   about whole sessions, Burst about the messages of /simulate. Cli/Startup: the rest of this file;
--   `start_up` is main up to its loop, over what the parts answer (`Outside`), and `shut_down` what
--   follows the loop, with the deferred calls. Joins is about the channels that are joined, Checks
--   about the calls that can end the program, Wiring about the start, Shutdown about whole runs.
-- - Login: cmd/auth-cli/main.go. `login_program` is main, and Handover is about the token that it
--   leaves to the chat program.
-- - Text, Text/Map, Time, Float, Http and Base are what these share: Go's strings package, maps, times,
--   float64, and helpers. Tests has runs of the definitions at concrete inputs.
--
-- Bounds: a text is a list of code points, so strings are taken to be valid UTF-8, and `byte_len`
-- gives the length in bytes. Times are nanoseconds from Go's zero time, and their differences
-- saturate at 64 bits as in Go. int is taken to have 64 bits; counters of the indexer wrap at 2 ^ 64.
-- Loops are structural recursions over the lists they go through, and the poll for a clip over the
-- attempts that are left, a number of the source. Only `show_digits`, the digits of a number, runs on
-- fuel: it gets 20, enough for every number below 10 ^ 20, and Bus/Ids is about these digits.
--
-- Parameters: unicode.ToLower (`lower`), the clock at each call of time.Now, float64 (`Float64`),
-- the order in which Go goes through a map, json.Marshal (`marshal`, and `Storage` with the files), the answers of the SQL driver
-- (`Driver`), of the WebSocket (`fails`), of Elasticsearch (`Answer`, `Exchange`), of Helix and Twitch's
-- OAuth (`HttpAnswer`, `Net`) and of NATS (`Nats`, `accepts`), the files of the model (`Files`), with
-- the ensemble that xgboost-go reads, strconv.ParseFloat (`parse_float`), url.Values.Encode
-- (`encode`), case folding (`fold`), the predictor and, for the pipeline, the Helix client
-- (`Predictor` and `Helix`, interfaces of functions), and the text of a Unix time.
--
-- Not modelled: log output, and the formatting of what the chat program prints (`Line` has what is
-- printed); the wording of errors, which are shortened; mutexes, whose critical sections are single
-- steps; the URLs of the requests to Helix; the start of the browser's command and the HTTP listener;
-- the schema of the table and the mappings of the indices, which are texts that are handed on; and, in
-- the session of the chat program, the frames that come in meanwhile, whose goroutine main starts: they
-- publish and answer PINGs (Ingest/Client/Frames), and the session reads only the client's channels.
pub mod Analytics
pub mod Auth
pub mod Base
pub mod Bus
pub mod Cli
pub mod Features
pub mod Float
pub mod Http
pub mod Ingest
pub mod Login
pub mod Models
pub mod Pipeline
pub mod Predict
pub mod Store
pub mod Tests
pub mod Text
pub mod Time
pub mod Twitch
