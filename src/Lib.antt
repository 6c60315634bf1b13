-- ===== src/Lib.antt =====
-- EVSE-SyncCharge, the firmware of an electric vehicle charging station on an ESP32: a model of its
-- control logic and the properties that the model has.
--
-- The parts of the program and the modules that model them (paths from the repository's root):
--   Types      EVSE-SyncCharge/EvseTypes.h: charging and vehicle states, settings.
--   Float      C++ `float`, an interface of the operations that the program uses. Float.Laws has what
--              the proofs assume of them, Float.Milli an instance that computes.
--   Relay      EVSE-SyncCharge/Relay.h, Relay.cpp: class Relay, the contactor with its anti-chatter
--              delay. `request_open` and `request_close` are the methods open and close.
--   Rcm        EVSE-SyncCharge/Rcm.h, rcm.cpp: class Rcm, the residual current monitor.
--   Pilot      EVSE-SyncCharge/Pilot.h, Pilot.cpp: class Pilot, the control pilot's PWM. Pilot.Read
--              is the method read with the classification and the debouncing.
--   Charge     EVSE-SyncCharge/EvseCharge.h, EvseCharge.cpp: class EvseCharge. Its record holds the
--              pilot, the relay and the monitor that the controller drives. Charge.Limit has
--              applyCurrentLimit and what calls it, Charge.Control the commands, Charge.Manage
--              updateVehicleState and managePwmAndRelay, Charge.Loop the pass of the loop. Charge.Run
--              has every call that the rest of the firmware makes of the controller as a command.
--              Charge.Overtaken has startCharging with what the controller's task does in the wait of
--              its self-test.
--   Boot       EVSE-SyncCharge/BootCount.h, BootCount.cpp: the boot counter in RTC memory.
--   Telnet     EVSE-SyncCharge/EvseTelnet.h, EvseTelnet.cpp: the remote console. Telnet.Input has
--              handleClientInput, processCommand and loop.
--   Logger     EVSE-SyncCharge/EvseLogger.h, EvseLogger.cpp: the log and its two streams.
--              Logger.Console has the log with the console that the sketch attaches to it.
--   Rfid       EVSE-SyncCharge/EvseRfid.h, EvseRfid.cpp: the card reader. Rfid.Tags has the list of
--              tags, Rfid.Scan the loop. The reader reports a card to the sketch by a callback.
--   Ocpp       EVSE-SyncCharge/OCPPhandler.h, OCPPhandler.cpp: the OCPP client. Ocpp.Handler has
--              the socket's events, the messages and the calls that are sent.
--   Mqtt       EVSE-SyncCharge/EvseMqttController.h, EvseMqttController.cpp: the MQTT client.
--              Mqtt.Command has mqttCallback, Mqtt.Topics the topics' texts, Mqtt.Report the reporting and
--              loop, Mqtt.Discovery and Mqtt.Payload the messages of publishHADiscovery.
--   Prefs      The key-value store of the ESP32, an interface: what is assumed of it is that a key
--              reads what was last written to it. `table` is an instance that computes.
--   Config     EVSE-SyncCharge/EvseConfig.h, EvseConfig.cpp: the configuration, loaded and saved.
--   Led        EVSE-SyncCharge/RGBWL2812.h, RGBWL2812.cpp: the LED strip. Led.Settings has its stored
--              settings, Led.Strip the calls of the driver and the colours, Led.Effects and Led.Run
--              the frames of runEffect, Led.Loop the method loop with the test sequence.
--   Web        EVSE-SyncCharge/WebController.h, WebController.cpp: the web pages. Their record holds
--              the parts that the handlers change. Web.Save is handleSaveConfig, Web.Routes the
--              other handlers and the routes, Web.Status the status document and the dashboard's
--              buttons, Web.Refresh the dashboard and the script of WebPages.cpp that refreshes it,
--              Web.Forms the forms of the configuration pages and what a browser sends.
--   Main       EVSE-SyncCharge/EVSE-SyncCharge.ino: the sketch. It makes the parts, starts the
--              controller's task and calls the others from its loop. Main.Setup is the setup from the
--              stored configuration, Main.Wifi its wait for WiFi, Main.Name the device's name.
--              Main.Device has a pass of the loop and of the task over the state of all the parts,
--              Main.Running the states that the starts of the chip, the calls and the passes lead to.
--              Main.Reach has the calls that reach the controller as the inputs of a smaller state
--              machine, for Main.Ota.
-- The modules below these hold their properties: Relay.Timing, Pilot.Duty, Pilot.Debounce,
-- Pilot.Peak, Charge.Session and Charge.Pass (the invariant), Charge.Power, Charge.Trip,
-- Charge.Faults, Charge.Start, Charge.Interleaved, Charge.LowLimit, Charge.Range,
-- Charge.Contactor, Charge.Held, Charge.Tripped, Charge.Unbegun, Boot.Crashes, Telnet.Login,
-- Telnet.Packets, Logger.Console, Rfid.Lists, Rfid.Allowed and Rfid.Hex, Ocpp.Server,
-- Mqtt.Failsafe, Mqtt.Values, Mqtt.Settled, Mqtt.Topics, Mqtt.Sizes, Mqtt.Entities, Mqtt.Connect
-- and Mqtt.Handled, Config.Stored, Led.Stored, Led.Steps, Led.Bounded and Led.Breath, Web.Access,
-- Web.Commands, Web.Stored, Web.Settings, Web.Reset, Web.Refresh, Web.Absent, Web.Sent and
-- Web.Erased, Main.Gate, Main.Led, Main.Reach, Main.Ota, Main.Wifi, Main.Restart, Main.Whole,
-- Main.Running and Main.Persist. Tests runs the model at concrete inputs.
--
-- How the parts are modelled: a method is a function from the object's state to its new state, with
-- the names of the source in this library's spelling. Each reading of millis() and of the hardware is
-- an argument of its own, so no two calls of the clock are taken to agree. `unsigned long` is 32 bits
-- and its differences and products wrap; the arithmetic of `int` counters is not bounded.
-- Floating-point values are an abstract type with the operations and literals that the code uses;
-- only the properties that say so assume laws of them, and the others hold also at NaN.
-- Loops are structural recursions on the data that they walk, but for the wait for WiFi in Main.Wifi,
-- which runs on fuel: 361 is enough, since the code gives up after 360 tries.
--
-- Conversions of the Arduino core's String (to upper and lower case, from and to numbers) are
-- parameters of the definitions that call them, and so is what a browser shows of a text that a
-- page writes unescaped into an attribute. What a client of the network is sent is a list of
-- constructors in place of texts.
--
-- What is not modelled: the calls of the log in the other parts; the HTML of the web pages but for
-- the controls of their forms and the elements of the dashboard, the answers to requests and the
-- scan for networks (EVSE-SyncCharge/WebController.cpp, WebPages.cpp), which change no state of
-- the parts; the watchdog, and what the OTA and HTTP libraries do themselves; and what two tasks
-- of the firmware do to the same object in the middle of each other's calls, where a call does not
-- wait: but for the wait in Charge.Overtaken, a call is one step. In Main.Reach a web request is
-- any command of the controller; Web.Commands says which ones the routes give, and in Main.Device
-- it is a request.
pub mod Base
pub mod Float
pub mod Types
pub mod Prefs
pub mod Config
pub mod Relay
pub mod Rcm
pub mod Pilot
pub mod Charge
pub mod Boot
pub mod Telnet
pub mod Logger
pub mod Rfid
pub mod Ocpp
pub mod Mqtt
pub mod Led
pub mod Web
pub mod Main
pub mod Tests
