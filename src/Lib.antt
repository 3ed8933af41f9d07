-- ===== src/Lib.antt =====
-- CRAMC: an agent that finds Excel files infected by macro viruses, cleans them and hardens the
-- machine against a further infection.
--
-- The agent (gocode/cmd/aioagent/main.go) searches the disk for Excel files, scans them with YARA
-- rules or reads the output of an external scan, and hands every match to two queues. The queue of
-- the sanitizer is emptied by a client that speaks with a privileged helper over a named pipe; the
-- helper backs a document up and lets Excel clean it. The queue of the hardener is emptied by a
-- loop that changes files and folders. The cleanup database and the rules come encrypted.
--
-- Files and code:
--   Prelude    strings as lists of bytes, lists measured by native numbers, and `Outcome`, what a
--              Go call comes back with: a value, an error of gocode/customerrs/err.go, a panic, or
--              nothing because it waits for ever
--   Common     the records of gocode/common/datamodels.go
--   Paths      what is used of the packages path and strings
--   Scanner    gocode/yarax_scanner/parse_iptlist.go (`ParseYaraScanResultText`); Scanner/Lines is
--              the scanner of the package bufio, with its limit of 64 KiB for a line;
--              Scanner/Yara is `ScanFilesWithYara` of yara_call.go
--   Search     gocode/fileutils: Search/Walk is `GeneralWalkthroughSearch`, Search/Mft is
--              `ExtractAndParseMFTThenSearch`, Search/OnDisk is `CheckFileOnDiskSize` and the
--              consumer of the searchers in main.go, Search/Agreement sets the two searches side by
--              side, Search/Stage is the choice between them in main.go, with its fallback, and
--              Search/Booster the tests that it depends on
--   Rpc        gocode/sanitizer_ole: Rpc/Server is `handleMessage` and `handleRPCConnection` of
--              rpc_server.go as state passing, Rpc/Client the methods of `RPCClient` in
--              rpc_client.go as a monad of state and outcomes, with the loop of `StartSanitizer`;
--              Rpc/EndToEnd connects the two, Rpc/Quit is the channel `quit` as the goroutines of
--              the server share it, a step relation on counts of goroutines, and Rpc/Reader the two
--              goroutines of one connection with the channels between them
--   Excel      Excel/Sanitize is `SanitizeWorkbook` of gocode/sanitizer_ole/excelop_windows.go,
--              Excel/Clean the goroutine of `excelFileCleanProcedure` in rpc_server.go around it,
--              Excel/Serial these goroutines, one for each document, over the worker that they
--              share, Excel/Timeout what a timeout does to the worker, Excel/Mutex its mutex among
--              documents and timeouts, Excel/Config the start of the application, and Excel/Opened
--              the properties of an opened workbook
--   Hardener   gocode/hardener, and the hardening loop of main.go
--   Crypto     gocode/cryptutils/xchacha20.go
--   Pipeline   the dispatch of the matches in main.go; Pipeline/Queues has the two queues as a step
--              relation, with any order of the goroutines
--   Platform   gocode/platform/windoge_utils: the choice of the session, privileges,
--              impersonation (which the program does not call) and Excel's processes;
--              Platform/Calls has the procedures that are called through `SyscallN`
--   Disk       the files of a disk by their path
--   Backup     gocode/sanitizer_ole/filebak_windows.go
--   Rules      gocode/yarax_scanner/yara_rule.go
--   Release    gocode/cmd/devreleaser/main.go: the tool that compiles and encrypts a release
--   Agent      gocode/cmd/aioagent/main.go: the start of the agent with gocode/updchecker/updck.go,
--              and Agent/Main, `main` from its flags to what its goroutine is to send on the queues
--   Sanitizer  `StartSanitizer` of gocode/sanitizer_ole/entrypoint_windows.go; Platform/Spawn is its
--              start of the helper process
--   Helper     gocode/cmd/privhelper/main.go with its lock file, and the first half of `Start` in
--              rpc_server.go; Helper/Race has several helpers at once
--   Telemetry  gocode/telemetry
--   Logging    gocode/logging/log.go
--   Tests      the theorems at concrete inputs
--
-- Code outside the repository is a parameter: encoding/json (`Codec`, with its laws `IsCodec`),
-- the AEAD of golang.org/x/crypto (`Aead`, `IsAead`), Excel's object model (`Excel`, `IsExcel`,
-- `ExcelEnv`), the calls of the operating system (`Os`, `Env`, `CleanEnv`, `TemplateEnv`,
-- `TokenCalls`, `PrivilegeEnv`, `ImpersonationEnv`, `NativeCalls`, `BoosterEnv`), the other end of
-- the pipe (`Peer`), zip files and the yara-x scanner (`YaraEnv`), its compiler and the walk of the rules
-- (`RuleEnv`), the gzip writer (`BakEnv`), encoding/hex (`IsHexDecoder`), net/http (`UpdateEnv`,
-- `TelemetryEnv`), the calls of the programs (`ReleaseEnv`, `AgentEnv`, `HelperEnv`, `SpawnEnv`),
-- and the rows that go-ntfs reads.
-- Tests gives each a concrete function that keeps the laws.
--
-- Loops are structural recursion on what they run over: lines, rows, queued documents, or the
-- count of components that the code takes before its loop; `Connect` has its three attempts. There
-- is no other fuel. A read of the client for which there is no line and no end of the connection
-- is the outcome `blocked`. Bytes and sizes are natural numbers, and the check sum keeps its 32
-- bits.
--
-- Not modelled: the set-up of COM, and the calls of the logger and the telemetry inside the other
-- parts. They are calls of libraries and of the operating system around the parts above. A file
-- system here has no directories, and a path is compared by its bytes. The fifteen seconds after
-- which `Stop` returns and the other pauses have no counterpart.
pub mod Prelude
pub mod Common
pub mod Paths
pub mod Scanner
pub mod Search
pub mod Rpc
pub mod Excel
pub mod Hardener
pub mod Crypto
pub mod Pipeline
pub mod Platform
pub mod Disk
pub mod Backup
pub mod Rules
pub mod Release
pub mod Agent
pub mod Sanitizer
pub mod Helper
pub mod Telemetry
pub mod Logging
pub mod Tests
