-- ===== src/Lib.antt =====
-- Home Brain RTC gateway: the parts of the gateway that decide something, and what holds of them.
--
-- The gateway answers SDP offers of Alexa devices and records their audio. `Manager.Create`
-- (internal/rtc/session_manager.go) enters an id into a table and calls `Server.NewSession`
-- (internal/rtc/server.go), which makes a peer connection and a `Session`
-- (internal/rtc/session.go), and rewrites the SDP answer for Alexa in three passes. The peer
-- connection calls the session back: a remote track starts a recorder
-- (internal/recording/recorder.go), a connection starts the audio prime loop
-- (internal/rtc/audio_prime.go), a disconnection arms a timer. A session that closes calls the
-- manager back, which takes its entry out of the table.
--
-- The files:
--   Prelude, Text        shared names, lists over the native numbers, and Go's strings, with
--                        strings.Split, Join, Fields, strconv.ParseUint and Atoi (Text/Number)
--                        and strconv.ParseBool (Text/Booleans)
--   Sdp                  what the three normalisers of internal/rtc/server.go share
--   Sdp/RtcpMux          normalizeAlexaRTCPMuxCandidates
--   Sdp/MediaIds         normalizeAlexaRejectedMediaMIDs, alexaOfferMediaSections,
--                        alexaRejectedMediaMIDInsertAt, alexaMediaLineFields
--   Sdp/Video            normalizeAlexaRejectedVideoPayloads, normalizeAlexaRejectedVideoMLine,
--                        alexaOfferedVideoPayloads, alexaRTPMapPayload, sdpFieldSpans
--   Sdp/MediaLines       the media lines of an answer behind the three passes
--   Session              Session: a locked section of a method is an action on the state, and a
--                        schedule of actions is any interleaving of goroutines and timers;
--                        Session/Track has the OnTrack callback and recordTrack
--   Manager              Manager: a locked section is a function on the table; a World adds the
--                        Create calls under way and the sessions made, and a sequence of events
--                        is any interleaving of them
--   AudioPrime           runAudioPrime and audioPrimeFramesForMode
--   Recording            sanitizeSessionID, ensureContained, OGGFactory.New and oggRecorder
--   Server/Offer         validateOffer
--   Server/Creation      NewSession, with what the WebRTC library answers as its environment
--   Server/Metadata      extractICESDPLogMetadata
--   Server/Options       NewServer, and the options that `run` of cmd/rtc-server/main.go makes
--   Config               internal/config/config.go: Load and its parsers, the public addresses in
--                        Config/PublicIp
--   HttpApi              internal/httpapi/handler.go over an interface of sessions;
--                        HttpApi/Gateway fills the interface with the Manager
--   Process              cmd/rtc-server/main.go: run and shutdownHTTPServer
--   Probe                cmd/rtc-probe/main.go: runProbe over its two interfaces; Probe/Client is
--                        sessionClient, Probe/Peer is pionProbe, Probe/Main has run and what it
--                        calls. Probe/Wire and Probe/Gateway carry the client's requests to the
--                        model of the HTTP API
--   Tests                runs on concrete inputs
-- The files below a folder hold the proofs about the file beside it.
--
-- `run` of cmd/rtc-server puts the parts together: it loads the configuration, makes the server and
-- the manager, serves the HTTP API and, when that ends or a signal comes, closes every session. The
-- probe is a client of the HTTP API that runs elsewhere.
--
-- Parameters stand for code that is not in the repository: what ice.UnmarshalCandidate accepts,
-- what the parser of session descriptions reads, what peer connections, recordings, tracks and
-- writers answer, when timers and contexts fire. The digest of a token and what the decoders of a
-- request answer are parameters too, as are time.ParseDuration, url.Parse, the random bytes and the
-- file system. What is assumed of one is a hypothesis of the theorem that uses it:
-- http.Server.Shutdown reports no error only when every handler has returned, and filepath.Rel
-- undoes filepath.Join.
--
-- Bounds: strings.Split and the loops over lines are structural recursion on the text, so no fuel
-- is used. ParseUint and Atoi keep the bounds of their bit sizes, with an int of 64 bits. The
-- generation of a disconnection is a uint64 that wraps around. The loops over ReadRTP run over the
-- packets that come before the error of a track.
--
-- Not modelled: the gateway's log, the codecs and the settings that the WebRTC library is asked
-- for, a network between the probe and the gateway that loses responses, and the Alexa skill under
-- lambda, which is a program of its own.
pub mod Prelude
pub mod Text
pub mod Sdp
pub mod Session
pub mod Manager
pub mod AudioPrime
pub mod Recording
pub mod Config
pub mod Server
pub mod HttpApi
pub mod Probe
pub mod Process
mod Tests
