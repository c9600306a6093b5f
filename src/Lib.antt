-- ===== src/Lib.antt =====
-- cam-bus: a collector that connects the cameras of a site to an MQTT bus, sends their events on, has
-- them analysed, and carries their video to a central server on demand.
--
-- The parts and how they interact. The supervisor (internal/supervisor/supervisor.go) subscribes to
-- two families of topics. An `.../info` message is a camera's configuration: it starts, updates or
-- stops the camera's worker, which runs a driver (internal/drivers), publishes the driver's events and
-- hands each to the engines (internal/engines), of which FindFace's
-- (internal/engines/findface_engine.go, internal/faceengine) derives new events from what the client of
-- FindFace (internal/findface) answers. A driver reads a stream of parts from its camera, authenticates
-- itself by a digest, and stores snapshots (internal/storage). An `.../uplink/<action>`
-- message starts, stops or reports an uplink: the uplink manager (internal/uplink/manager.go) counts
-- starts and stops, chooses the SRT address (internal/uplink/srt.go) and runs an FFmpeg container
-- (internal/uplink/container), or leaves the sending to MediaMTX. The manager reports each change back
-- to the supervisor by a hook, and the supervisor rewrites the configuration of the MediaMTX servers
-- (internal/mediamtx/config.go) from its cameras and the states of their uplinks.
--
-- Which file models which part:
--   Core, Core/Analytics         internal/core: CameraInfo, AnalyticEvent, the tables of event types.
--   Drivers                      internal/drivers/base.go: the registry and the status updates; Camera
--                                (what both drivers use), Digest (`doDigest`, `parseDigestAuthHeader`),
--                                Snapshots (`buildSnapshotKey`), Rounds (`Run`).
--   Drivers/Hikvision, /Events,  internal/drivers/hikvision.go: `runOnce` and the loop over the parts,
--   /Xml                         `parseJSONEvent`, `parseXMLEvent`, `stripXMLNamespace`.
--   Drivers/Dahua                internal/drivers/dahua.go.
--   FindFace, FindFace/Calls     internal/findface/client.go: settings, what is read from answers, names
--                                and photos of cards; the five calls. FindFace/Engine is the face engine
--                                over this client.
--   Storage                      internal/storage/minio_store.go.
--   Mqtt                         internal/mqttclient/mqttclient.go.
--   Router                       cmd/face-router/main.go: the program that only runs the engines.
--   Engines, Engines/Isolation   internal/engines: the engines from the environment, `ProcessAll` and
--                                its recovery from errors and panics.
--   FaceEngine                   internal/faceengine/faceengine.go: `ProcessFaceCapture`.
--   Uplink/Env, /Request, /Path  environment settings, `Request.Normalize`, `applyDefaults`,
--                                `validateStart`, `keyFor`, `CentralPathFor`.
--   Uplink/Srt/*                 internal/uplink/srt.go: Options (parameter sets), Query, Host
--                                (`normalizeSRTInputs`), Candidates (`BuildSRTURLCandidates`).
--   Uplink/Container/*           internal/uplink/container/manager.go: Args (FFmpeg's arguments), Docker
--                                (`run`), Logs (`classifyFFmpegLogs`), Names, Start (`Start`, `Stop`,
--                                `InspectStatus`); Interface is the record of what the manager uses.
--   Uplink/Manager               the `uplinks` map, `startUplink` and `stopUplink`; Manager/Operations has
--                                `Start`, `Stop`, `StopByCamera`, `StopAll`, the TTL timer and
--                                `reconcileOnce`, and the events that act on the manager.
--   Supervisor                   the supervisor's maps and the updates of them; Snapshots (the cameras
--                                for MediaMTX), Services (what it uses), Discovery (Home Assistant),
--                                Workers, Uplinks, Handlers (`handleInfoMessage`, `handleUplinkMessage`,
--                                `stopAll`), StatusReports, Steps (what happens to it).
--   MediaMtx/*                   internal/mediamtx/config.go: Config, Generator (`buildConfig`), Sync
--                                (`Sync`, `applyConfigViaAPI`), Api (the file, `doJSON`, the signal);
--                                Retention is about `retentionForCamera`;
--                                Shell models the shell that reads `joinCommandArgs`, Applying the server
--                                that gets the requests.
--   Base/*                       helpers: tests, lists, texts, decimals, maps, effects, decoded JSON, dates.
-- The other files hold proofs, by the name of what they are about. Tests holds runs and examples.
--
-- How code is modelled. Code that acts on the outside (the broker, docker, files, HTTP) is a function
-- from a world `W`, a parameter, to its result and the next world; what it calls there is a field of a
-- record that the definitions take (Services, Outside, System, Server, Client, Lib, UrlLib, Camera,
-- Http, Minio, Paho). What these do is not assumed, except by a theorem's hypotheses. Errors are the
-- texts of the code where the code reads or reports them. A call of the uplink manager holds its mutex
-- throughout and is one step. A handler of the supervisor is one step as well, though it locks the
-- supervisor's mutex several times: what another goroutine, such as `stopAll` at the end of `Run`, does
-- between two locked parts of a handler is not expressed. Between steps, the goroutines, the timers and
-- the handlers come in any order, as the sequences of `Step` and `Event`. A Go map is a list of entries
-- in the order in which `range` happens to visit them. Theorems about a map hold for every order; only
-- `StopByCamera` visits its at most three keys in a fixed order. Events are values: the Meta map that
-- the source shares between an event and those that are derived from it is copied. A Go
-- string is its sequence of runes.
--
-- Bounds and fuel. Numbers that the code reads from texts are checked against the range of a 64-bit
-- int, as `strconv.Atoi` does. `show_nat` has fuel for 20 digits, enough for every 64-bit int. No other
-- definition uses fuel. The counters of starts and stops are numbers without a bound: to overflow, they
-- would need 2^63 commands. Durations are nanoseconds in MediaMtx and seconds elsewhere. The times of
-- events are nanoseconds from the year 1 on, 0 where the time is zero; `UnixNano` wraps around. A
-- driver's `Run` is a number of turns of its loop, which has no bound: theorems hold for every number.
-- A stream is the list of its parts and the way it ends.
--
-- Not modelled: the programs under cmd but for face-router, which read settings and wire the parts
-- together, and the tools among them. Sockets, the MQTT protocol, HTTP, the reading and writing of
-- multipart bodies, MD5, base64, the decoding and encoding of JSON, XML and yaml, `url.Parse` and the
-- MinIO client are library code: parameters. Log lines and time limits are left out, and the clock but for the times that are stored or
-- sent.
mod Base
pub mod Core
pub mod Uplink
pub mod Engines
pub mod FaceEngine
pub mod FindFace
pub mod Storage
pub mod Mqtt
pub mod Router
pub mod Drivers
pub mod Supervisor
pub mod MediaMtx
mod Tests
