-- ===== src/Lib.antt =====
-- A verification library for openqiara, the alarm gateway of a Qiara camera (Go).
--
-- The parts and how they interact. The alarm engine (internal/alarm/engine.go) takes user commands,
-- sensor events and siren reports, keeps the alarm's state in a file, and orders the siren about
-- through the siren driver (internal/alarm/siren.go). The siren is armed with the sensors and delays
-- that cmd/openqiarad/siren.go takes from the configuration. The driver speaks to the siren over the
-- radio engine (internal/radio), the gateway's side of the radio protocol: it answers the sensors'
-- frames, gives them their bytecode, the time and their config, and says what they report. Its frames
-- are the managed frames of internal/charmux/managed.go. The VM write frames that install a sensor's
-- bytecode are made by internal/domusvm. The addresses that it answers come from the registry of the
-- paired sensors, which the radio client (internal/camera/radio.go) keeps in the configuration
-- (internal/config/config.go); the client hands the sensors' frames to the engine and publishes what
-- they report, which the daemon (cmd/openqiarad/main.go) forwards to the publishers and to the alarm
-- engine, or leaves to Alarmo, whose states the siren mirrors. A new sensor is paired by the handshake
-- of internal/domus. The web server (internal/web/server.go) sets the keypad's codes and the password.
-- Apart from these, internal/hlevents keeps what the camera detects, internal/hksv/tlv.go is the
-- format of the HomeKit Secure Video configuration and internal/hksv/opack.go that of the data
-- stream's messages, internal/hksv/prebuffer.go keeps what comes before a recording, and
-- internal/publisher/h264rtp.go cuts the video into RTP packets.
--
-- Files. `Prelude` has the shared names, the tests on native numbers, lists, bytes and maps. `Alarm.Types`
-- and `Alarm.Engine` are engine.go, a function for each method; `Alarm.Life` is `Load`, and the calls
-- that reach an engine as a list of events; `Alarm.Invariant`, `Forward`, `Timers`, `Delays`, `Orders`, `Watch`
-- and `Persist` prove. `Alarm.SirenDriver` is siren.go, `SirenWant` and `SirenRate` prove.
-- `Charmux.Varint` and `Charmux.Frame` are managed.go, `Charmux.RoundTrip` proves. `Domusvm.Ops` is
-- opcode.go and frame.go, `Domusvm.Init` coordinator.go and bytecode.go, `Split` and `Install` prove.
-- `Radio.Types` and `Radio.Sensors` are sensors.go and the data of internal/radio/engine.go,
-- `Radio.Dialogue` and `Radio.Engine` its methods, `Radio.Life` the calls that reach it; `Replies`,
-- `Window`, `Lost`, `Ops` and `Keypad` prove. `Hksv.Tlv` is tlv.go, `TlvChunks` and `TlvRoundTrip`
-- prove. `Config.Types`, `Config.Store`, `Config.Login` and `Config.Load`, `Config.Settings` are
-- config.go; `Config.Migration` proves. `Camera.Registry` is `reserveAddr`, `adopt` and `DeleteSensor`
-- of the radio client and the change that the web server's handleDeleteSensor makes, `Camera.Pairings`
-- the calls of these as a list; `Unique`, `Adopt` and `Pairings` prove. `Camera.Sensors` is types.go,
-- `Camera.Client` is `publish` and `send` of internal/camera/radio.go, `Camera.Reload` `reload`,
-- `Camera.Receive` `receive`, `markSilent` (as `tick`) and `command`, `Camera.Siren` the commands of
-- the siren; `Publish`, `Serving`, `Linked`, `Stranger`, `Keypads`, `Silence` and `Arming` prove.
-- `Hlevents.Dispatcher` is dispatcher.go of internal/hlevents; `Expiry` and `Runs` prove. `Media.H264` is h264rtp.go,
-- `Media.Fragments` the receiver of RFC 6184; `Reassembly` and `Numbering` prove. `Domus.VendorKeys`
-- is vendorkeys.go and `Domus.Pairing` pairing.go; `PairingLaws` and `PairingEnds` prove.
-- `Hksv.OpackValue` and `Hksv.Opack` are opack.go; `OpackShape`, `OpackNumbers`, `OpackSteps` and
-- `OpackRoundTrip` prove. `Hksv.Prebuffer` is prebuffer.go; `PrebufferTrim` and `PrebufferLife` prove.
-- `Daemon.Siren` is cmd/openqiarad/siren.go; `SirenWatch` proves. `Daemon.Controller` is
-- siren_controller.go and `Daemon.Forward` `forwardEvents` of cmd/openqiarad/main.go with the
-- dispatch of commands; `Mirror`, `Intrusion` and `AlarmoMode` prove. `Web.Keypad` and
-- `Web.Admin` are the keypad's codes and the password of internal/web/server.go; `Codes` and `Lock`
-- prove. `Fbxbus.Wire` is the headers of internal/fbxbus/wire.go, with an int of 64 bits; `Fields` and
-- `RoundTrip` prove. The modules `Tests`, `ClientTests`, `ForwardTests` and so on run the definitions.
--
-- Conventions. State is passed explicitly; what a method does outside is a list in the state, newest
-- first. A mutex makes a method one step, and `handleIV`, which releases the lock in between,
-- several. Times are nanoseconds, and one call reads the clock once. Bytes are numbers below 256; a
-- uint32 wraps where the source's arithmetic can. Bit masks are written as divisions and remainders by
-- powers of two.
--
-- Fuel. A varint of a uint32 has at most four groups before its last, so `append_varint` makes four
-- rounds at most; the loop of the chunks has the length of the bytecode, each round taking a byte at
-- least, and so has the loop that counts the ops of a frame. The loop of `trim` has one round more
-- than there are groups of pictures, and that of `freeSystemIndex` its 64. The decoder of the data
-- stream messages has a level of values for each byte, and in its loops a round. The loops of TLV8
-- have the length of the value or of the bytes. The loop of `parseHeader` has the length of the packet.
--
-- Not modelled: sockets, goroutines and channels, JSON and files (their outcomes are parameters),
-- logging, the media servers, MQTT, HomeKit, the web server but for the removal of a sensor, the
-- keypad's codes and the password, and the copy of the HAP library.
pub mod Prelude
pub mod Alarm
pub mod Charmux
pub mod Daemon
pub mod Domus
pub mod Domusvm
pub mod Radio
pub mod Hksv
pub mod Media
pub mod Config
pub mod Camera
pub mod Hlevents
pub mod Web
pub mod Fbxbus
