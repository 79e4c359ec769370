-- ===== src/Lib.antt =====
-- Quickshell: the parts of the shell that decide something, as functions and state machines.
--
-- The parts, and the files that model them:
--
-- * Log.antt and Log/: the encoded log (src/core/logging.cpp, src/core/logging_p.hpp). `LogWriter`
--   and `LogReader` are EncodedLogWriter and EncodedLogReader with their buffers; `encode` is
--   EncodedLogWriter::write up to its flush, `write` the whole; `read` is EncodedLogReader::read,
--   whose label `start` is a round of `read_rounds`. A reader's method is a function from its state
--   to a value or none, and the state it leaves. Both sides remember messages in a ring of 256.
--   Log/Session.antt and Log/File.antt put messages one after the other, and a header before them;
--   `continue_reading` of Log/Tail.antt is LogReader::continueReading, what is printed being a
--   list.
-- * Ring.antt and Ring/: RingBuffer and HashBuffer (src/core/ringbuf.hpp), which the log uses.
-- * StackList.antt and StackList/: StackList (src/core/stacklist.hpp).
-- * ScriptModel.antt and ScriptModel/: how ScriptModel (src/core/scriptmodel.cpp) brings its rows
--   to new values; `update_loop` is the loop, whose iterators are a `Cursor`, and `round` a round
--   that goes on.
-- * ObjectModel.antt and ObjectModel/: ObjectModel (src/core/model.hpp), with the signals of each
--   change; a view is that of ScriptModel/Views.antt.
-- * Clipboard.antt and Clipboard/: ClipboardHistory (src/wayland/data_control/history.cpp), whose
--   entries are an object model: Clipboard/Selection.antt what it reads, Clipboard/Calls.antt its
--   calls, Clipboard/Disk.antt its file, and `handle` of Clipboard/Events.antt one turn of the event
--   loop.
-- * DesktopEntry.antt and DesktopEntry/: DesktopEntry::parseText and parseExecString
--   (src/core/desktopentry.cpp).
-- * Scanner.antt and Scanner/: the loop of QmlScanner::scanQmlFile (src/core/scan.cpp).
-- * Retainable.antt and Retainable/: Retainable, RetainableHook and RetainableLock
--   (src/core/retainable.cpp).
-- * Rules.antt and Rules/: the rules of log categories (src/core/logging_qtprivate.cpp) and the
--   filters that they change (CategoryFilter, LogManager::filterCategory in src/core/logging.cpp).
-- * Popup.antt and Popup/: PopupAnchor as a state machine and PopupPositioner::reposition
--   (src/core/popupanchor.cpp), over Box, Margins and Edges (src/core/types.hpp,
--   src/core/types.cpp).
-- * Network.antt and Network/: the classification of a Wi-Fi network's security
--   (src/network/nm/utils.cpp) over the flags of src/network/enums.hpp and
--   src/network/nm/enums.hpp, and in Network/Settings.antt the merge and the removal of settings.
-- * DataStream.antt and DataStream/: SplitParser, StdioCollector and DataStream
--   (src/io/datastream.cpp).
-- * StreamReader.antt and StreamReader/: reads of a device in transactions
--   (src/core/streamreader.cpp).
-- * Greetd.antt and Greetd/: the session with the greeter daemon
--   (src/services/greetd/connection.cpp); `on_socket_ready` handles responses, `socket_ready` of
--   Greetd/Socket.antt the bytes of the socket, through a stream reader. A disconnection is an event of
--   the socket alone (`disconnect`), since the source connects nothing to it.
-- * Texts.antt, for the splitting of texts and dictionaries with text keys.
-- * Prelude.antt and Prelude/: names, tests, lists, flags and integers that the parts share.
-- * Examples.antt and Examples/: concrete inputs of the theorems.
--
-- Numbers are natural numbers; a fixed width is written as a remainder. The coordinates of popups
-- are integers, without overflow. Loops have fuel: `find_loop` eleven rounds, one for each type;
-- `index_loop` one for each element; `read_rounds` one more than the bytes that are left, since
-- each round takes a byte at least; `keep_loop` one more than the rows, and `evict` one more than
-- the entries; `update_loop` one more than the old and the new values
-- together; `scan` one more than the bytes there are; `fill_to` the bytes that are missing, and
-- `search` one more than the bytes that are pending. Text is a list of character codes, and bytes
-- are numbers.
--
-- From outside come, as parameters with the laws that their documentation states: Qt's rectangles
-- (Popup/Geometry.antt); date times, the hash of strings, the output device and the filter of a
-- category (`Env` of Log.antt); the compact JSON text of a request (`compact` in Greetd.antt) and
-- what a response's text says (`from_json` in Greetd/Socket.antt); the device of a stream reader
-- (`Device`, `Prompt`); the test for white space in Rules.antt; the variants that a script model
-- shows, with no law of their `==` (`ValueApi`; a theorem that needs one has it as a premise); MD5,
-- UTF-8 and QDataStream for each type that is stored (`Qt` and `Codec` of Clipboard.antt); trimming
-- and the pragma engine (`ScanEnv` of Scanner.antt); and the windows and items of an anchor (`Env` of Popup/Anchor.antt).
--
-- Not modelled: the files, locks and threads around the log, the mapping of an item's rectangle in
-- PopupAnchor::updateAnchor, Qt's connections, handlers of a signal that call back while it is
-- emitted, the conversions of network settings, the directories that the QML scanner and the
-- desktop entries are read from, and the bindings to Wayland, X11, D-Bus and QML.
pub mod Prelude
pub mod Clipboard
pub mod DataStream
pub mod DesktopEntry
pub mod Examples
pub mod Greetd
pub mod Log
pub mod Network
pub mod ObjectModel
pub mod Popup
pub mod Retainable
pub mod Ring
pub mod Rules
pub mod Scanner
pub mod ScriptModel
pub mod StackList
pub mod StreamReader
pub mod Texts
