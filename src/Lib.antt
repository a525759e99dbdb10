-- ===== src/Lib.antt =====
-- gps-base-station: the firmware of a GNSS base station on an ESP32-P4 with a UM980 receiver.
--
-- The receiver sends RTCM3 bytes. `BaseStation` (main/base_station.cpp) cuts them into frames, keeps the
-- frames for the LAN in a batch and the newest frame of each type in a mailbox, and hands them to the
-- local caster (main/local_caster.cpp) and to three NTRIP clients (main/ntrip_push.cpp), each of which
-- has a queue and a task of its own. A state machine in `BaseStation` decides from the mode, the user's
-- switches and the state of the data which of them may run. A survey (main/survey.cpp) finds the position
-- of the station from the receiver's own. The settings live in NVS
-- (main/storage.cpp), and the console log in a ring (main/log_buffer.cpp). In its raw mode the base
-- station hands the receiver's messages to the RINEX logger (main/rinex_logger.cpp), which writes epochs
-- to files on the SD card. The administrator works on a web page (main/web_server.cpp), behind a login;
-- it can delete files of the card (main/sd_manager.cpp) in one background job (main/sd_delete.cpp).
-- `WifiManager` (main/wifi_manager.cpp) keeps the station connected, and raises an access point if it
-- cannot.
--
-- Where to find what:
--   Rtcm/Crc, Rtcm/Parser    `rtcm_crc24q`, `feed_rtcm_byte` and `reset_rtcm_parser`
--   Rtcm/Batch               `RtcmBatch`, `publish_to_batch`, `flush_due_batch`, `flush_batch_frames`
--   Rtcm/Corrections         `CorrectionSlot`, `publish_to_corrections`, `flush_destination_if_due`
--   Station                  the flags, `apply_stream_state` and the calls of other tasks
--   Station/Modes            `enter_survey` to `reset_um980`, `handle_action`
--   Station/Feed             `read_data_uart`, `publish_rtcm_frame`, `flush_due_corrections`
--   Station/Loop, /Start     one pass of `run`, and the requests; `start` and `stop`
--   Ntrip/Client             `NtripPushClient`: its state, `configure`, `push`, `status`, `start`, `stop`
--   Ntrip/Send, /Connect     `send_all`; `connect_socket`, `connect_caster`
--   Ntrip/Backoff, /Run      `retry_delay_ms`; one pass of `run`
--   Caster, Caster/Send      `LocalCaster`; its `send_all`
--   Storage                  `Storage`
--   Survey, Survey/Text      `SurveyManager`: `feed`, `parse_line`, `parse_gsv`, `parse_gsa`
--   Survey/Position          its state, `start`, `commit_block`, `parse_double`
--   Survey/Sampling          `parse_best_position`
--   Log                      `log_buffer`
--   Um980                    `Um980`: the commands of the receiver
--   Rinex/SatId, /Feed       `format_sat_id` of main/rinex_satid.h; `RinexLogger::feed`
--   Rinex/Records, /Files    the observations of `process_message`; epochs and files on a card that can fail
--   Rinex/Names              the name of a file, as `open_file` prints it
--   Sd, Sd/Walk, /Preview    `SdManager`: `check_deletable`, `delete_paths`, `preview_delete_many`
--   Sd/Job                   `sd_delete`
--   Wifi, Wifi/Modes         `WifiManager`: the state and the events; the modes of the radio
--   Wifi/Recovery            one pass of `recovery_loop`
--   Wifi/Networks            `scan_networks`
--   Web/Forms, /Json         `url_decode`, `form_value`; the texts of JSON and HTML
--   Web/Session              `authorize`, and the handlers of login, logout and setup
--   Web/Dates                `utc_to_unix`, `select_rinex_files`
--   Web/Files                the handlers that preview and delete files
-- Below each of them the modules named for a property hold the proofs, and Tests the runs.
--
-- How the code is told: state is a record, and an operation takes it and gives it back. What lwIP, the
-- UART, the clock, the random numbers and other tasks do is an argument: a write gets the list of what
-- each round of its loop meets, and `none` or `waiting` says that the list was over before the loop. The
-- loop over the action queue has fuel for as many actions as wait, and the loop over the satellites of a
-- message has as much as the message has characters. The walks over a tree of files have fuel for the
-- longest path that the card knows, and two more: each step goes to a longer path, and FATFS finds no
-- longer one. FreeRTOS queues (Freertos) and NVS (Nvs) are records of operations with their documented
-- behaviour; Reference gives an instance of each. The file system of the card, the WiFi driver, the UART
-- and the doubles of the C library, with its `gmtime_r`, are records of operations too (`FsApi`, `WifiApi`, `UartApi`, `Doubles`, `Reals`). A result of `none` of `utc_to_unix`
-- says that C++ leaves it undefined. A pass of the WiFi task is one step, and the events that are handled
-- while one of its calls waits are its argument (`Seen`); a call of `WifiManager` from another task lies
-- between passes. A request of the web server is one step. What the card does to the files of the RINEX
-- logger is an argument of each message (`Io`).
-- Texts are lists of character codes. A counter of 32 or 64 bits wraps where the code's does; times in
-- microseconds are 64 bits and do not wrap in the life of a device. A pass reads the clock where the code
-- does, except that the reads within one call are one argument. A member that several tasks share is
-- stepped by whole operations.
--
-- Not told: the position, the antenna and the dates in the header of a RINEX file, what a damaged one
-- holds, the pages of the web server and its HTTP glue, the touch screen, the network's health, the
-- mounting of the card, and the vendored components. The base station's calls of the receiver, the survey
-- and the RINEX logger are recorded. The texts of messages are told by what they say, and log lines are
-- left out.
mod Prelude
pub mod Log
pub mod Rtcm
pub mod Freertos
pub mod Ntrip
pub mod Caster
pub mod Nvs
pub mod Storage
pub mod Sd
pub mod Station
pub mod Survey
pub mod Web
pub mod Rinex
pub mod Wifi
pub mod Um980
