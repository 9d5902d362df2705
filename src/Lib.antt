-- ===== src/Lib.antt =====
-- A model of the Python of esphome-snapcast, a synchronized multi-room audio player for ESPHome,
-- with the theorems that make it correct.
--
-- The repository's Python does two things. `components/snapclient/__init__.py` validates what the
-- user configures and generates the calls that set up the firmware. `scripts/` measures how far
-- apart two boards play: a logic analyser captures the I2S buses of both, a decoder turns the
-- edges into words with a time each, and the lag at which the two streams of words agree gives the
-- skew. The measurement runs inside PulseView (`scripts/decoders/i2s_skew/pd.py`) or as a program
-- that captures for hours and joins the result with the logs of the boards
-- (`scripts/i2s-skew.py`). Beside it stand a measurement on the DIN lines with a two-channel scope
-- (`scripts/din-skew.py`), a logger for the serial port (`scripts/serial-log.py`), a diagnosis of
-- the boards' logs (`scripts/diagnose-logs.py`), a comparison of them (`scripts/sync-delta.py`) and a
-- survey of the stations of the router (`scripts/ap-stations.py`).
--
-- Base: booleans, lists and integers over the native numbers, shared by all.
-- Decoder: `scripts/decoders/i2s_skew/pd.py`. `Bus` has the dict of one bus and the methods
--   `_on_ws_edge` and `_on_bclk_edge`; `Loop` has `decode`, one `wait` of libsigrokdecode at a time;
--   `Correlation` has `_corr_full` and the choice of the peak; `Window` has `report_window`,
--   `emit_csv` and `flush_window`, where `none` is the exception of a division by a sample rate of 0.
--   What `wait` returns with is a parameter.
-- Config: `components/snapclient/__init__.py`. `Schema` has `CONFIG_SCHEMA`, a raw configuration to
--   a validated one or the keys that are wrong; `Codegen` has `to_code`, a validated configuration
--   to the list of calls made, with the exception that ended them if there is one. `Words` and
--   `Values` describe the accepted values apart from the code.
-- Analyser: `scripts/i2s-skew.py`, a module per part. `Failures` has `CaptureFailures`; `Stream`
--   has `stream_blocks`, where the sizes of the reads are a parameter, and `stream_reader`, whose
--   two threads are actions on one state, in any order, and whose queue has no bound at a depth of
--   0; `CsvFile` has `load_column`, `load_rates` and `load_existing`, on the lines of a file;
--   `Series` has the lookups, splits and differences of time series; `LogEvents` has
--   `parse_sync_events`, a handler for each pattern, where what the patterns match in a line is the
--   data that it starts from; `DeviceClock` has `place_device_times`, `device_anchor` and
--   `tod_to_unix`, on whole microseconds; `Display` has `_ops_to_svg` with `_xml_escape`,
--   `_write_atomic` as steps of threads, and `PlotServer`.
-- SerialLog: `scripts/serial-log.py`. `Port` has one round of the loop of `main`, where what the system
--   calls return is data of the round; `Lines` has how bytes become lines, on as much fuel as there
--   are bytes.
-- Incidents: `scripts/diagnose-logs.py`. `Events` has `parse`, `Build` has `build_incidents` and
--   `Fleet` what `main` makes of the incidents of all devices. Times are whole milliseconds.
-- DinSkew: `scripts/din-skew.py`. `Schmitt` has `binarize` as it is vectorised, `BitPhase` has
--   `unwrap_bitphase` on exact numbers, with the difference to settle as fuel, `Blocks` has
--   `xcorr_blocks` behind the correlation of the blocks, `Measure` the gates and the loop, `Edges` has
--   `edge_times` and `Resumed` has `load_existing`.
-- ApStations: `scripts/ap-stations.py`. `Topology` has `stations` on a tree of JSON, `Session` has `ubus`,
--   `login`, the renewal of a session and the loop of `main` over a router that is a parameter, `Elements`
--   has `data_elements` and `Traffic` the rows of `congestion` and their groups.
-- SyncDelta: `scripts/sync-delta.py`. `Reports` has `parse`, in whole milliseconds.
--
-- A float is a value of an arithmetic that is a parameter without laws (`Base.Float`), so what is
-- proved of the decoder holds whatever rounding does. A sample number, a duration and a tick are
-- native numbers, a lag and a PCM word are integers: Python's integers have no width. The loop of
-- `decode` has no end; it is modelled over any number of rounds. The loops over lists are structural.
--
-- Not modelled: the C++ firmware and the tests; the numpy arithmetic, the layout of the plots and the
-- statistics of the analyser; the simulation model; the one-off scripts.
pub mod Base
pub mod Decoder
pub mod Config
pub mod Analyser
pub mod SerialLog
pub mod Incidents
pub mod DinSkew
pub mod ApStations
pub mod SyncDelta
