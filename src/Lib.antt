-- ===== src/Lib.antt =====
-- Verification of buddy3d-proxy.
--
-- buddy3d-proxy stands between the cloud of a Prusa Buddy3D camera and its viewers at home: it signs
-- in at Prusa, brings up a WebRTC session with the camera on demand, serves the video over RTSP,
-- takes snapshots of it, and reports and takes commands over MQTT. This library models the program's
-- own logic; the runtime (tokio), the network, WebRTC and the serialisation of JSON are outside.
--
-- Parts, and how they meet
--
-- Pacing: what slows the program down in front of Prusa's servers.
--   Pacing/Budget.antt     src/reconnect_budget.rs, the bucket that paces connects of both callers
--   Pacing/Backoff.antt    src/backoff.rs, the schedule of the supervisor's watchdog
--   Pacing/RateLimit.antt  src/rate_limit.rs and `send` of src/prusa/client.rs
-- Media: packets.
--   Media/Reassembler.antt src/snapshot/h264.rs, RTP payloads to H.264 units
--   Media/Interleaved.antt src/rtsp/interleaved.rs, a packet as a frame on the RTSP connection
--   Media/RtpHeader.antt   `header_to_bytes` of src/rtsp/server.rs
-- Rtsp: the server towards the viewers.
--   Rtsp/Params.antt, Rtsp/Sdp.antt, Rtsp/Sdp/Extract.antt  src/rtsp/sdp.rs
--   Rtsp/Message.antt      src/rtsp/message.rs, requests and responses
--   Rtsp/Session.antt      src/rtsp/session.rs, the state machine of a connection
--   Rtsp/Connection.antt   `handle_connection` of src/rtsp/server.rs: reads, the buffer, requests in
--                          their order through the session, the subscription, the end of the task
--   Rtsp/Forward.antt      `forward_rtp` of src/rtsp/server.rs
--   Prelude/Text.antt, Prelude/Decimal.antt and Prelude/Utf8.antt have the functions of Rust's `str`
--   that these call; a text is its bytes.
-- Prusa: the client towards the cloud.
--   Prusa/Commands.antt    src/prusa/commands.rs, the payloads of camera commands
--   Prusa/Api.antt         src/prusa/api.rs, what the REST calls return
--   Prusa/Signaling.antt   src/prusa/signaling, with Engineio and Socketio for the packets, Correlator
--                          for binary events, Client for the task at the WebSocket, Session and Ice
--                          for the handshake and the events (mod.rs); Json.antt is what these use of
--                          serde_json
-- Proto.antt: src/proto/buddy3d.rs, the messages of the signaling protocol.
-- Auth: sign-in.
--   Auth/TokenStore.antt   src/token_store.rs, the file of the tokens and what the system does to it
--   Auth/Jwt.antt          src/jwt.rs
--   Auth/Login.antt        `bootstrap`, `refresh` and `follow_chain_for_code` of src/prusa/auth.rs
--   Auth/Orchestrator.antt `AuthOrchestrator` of src/prusa/auth.rs
-- Mqtt: the bridge to MQTT.
--   Mqtt/State.antt        src/mqtt/state.rs, which states are published
--   Mqtt/Commands.antt     src/mqtt/commands.rs, commands that come in
--   Mqtt/Transient.antt    src/mqtt/transient.rs, a command over a connection of its own
--   Mqtt/Discovery.antt    src/mqtt/discovery.rs, the discovery messages of Home Assistant
--   Mqtt/Hub.antt          src/mqtt/hub.rs, what is announced, and a message that comes in
-- Snapshot.antt: src/snapshot/mod.rs and `build_annex_b` of src/snapshot/encode.rs.
-- WebRtc.antt: src/webrtc_session.rs, over what the crate webrtc answers.
-- Config.antt: src/config.rs.
-- Supervisor: src/supervisor/mod.rs, one camera session shared by all viewers.
--   Supervisor/Defs.antt       the shared state (`SupervisorInner`, `SessionState`, `Supervisor::new`)
--   Supervisor/Subscribe.antt  `subscribe`, `connect_session`, `budgeted_connect`, and the drop of a
--                              `Subscription` (src/rtsp/server.rs)
--   Supervisor/EventLoop.antt  `viewer_event_loop`, the idle timers, `teardown_session`
--   Supervisor/Watchdog.antt   `reconnect_watchdog`
--   Supervisor/Snapshot.antt   `snapshot`, `subscribe_rtp`
--   Supervisor/Steps.antt      the interleavings of all these
--   Supervisor/Factory.antt    src/supervisor/webrtc_factory.rs and src/live_outbound.rs, how a session
--                              comes up and what is shared while it lives
--
-- How the model reads the code
--
-- A time is a number of nanoseconds, and each function that reads the clock takes the time instead.
-- An integer of a fixed width is a natural number with the wrap written out, but for the supervisor's
-- counters of viewers and of reconnects, which are unbounded. Asynchronous code is cut
-- at its awaits into functions on the shared state; `Step` lets the tasks' pieces follow one another
-- in any order, and lets time, the camera and the timers do anything, so what holds of `Reach` holds
-- of every schedule. Two effects with no await between them are one step.
-- A random draw, and what a library answers, is a parameter.
--
-- Fuel: `acquire` has a round of its loop for each unit, and two are enough when no other caller
-- takes the token; `split_aggregate` takes two bytes a round at least and has one unit for each byte;
-- `pad` has three, as many as a word can lack; `drain` has one for each byte of the buffer and one
-- more, and a request takes four bytes at least;
-- `push_varint` has nine, since ten groups of seven bits hold 64.
--
-- Not modelled: logging and tracing, the network and the runtime, the crate webrtc, the decoding of
-- pictures, the encoding that prost generates, HTTP requests, and the test files.
mod Prelude
pub mod Pacing
pub mod Media
pub mod Rtsp
pub mod Mqtt
pub mod Prusa
pub mod Proto
pub mod Auth
pub mod Snapshot
pub mod WebRtc
pub mod Config
pub mod Supervisor
