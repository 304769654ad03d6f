-- ===== src/Lib.antt =====
-- The core of the DDoS protection system: the packets that it reads, the address sets, the
-- detectors that give each packet a verdict, and the filter in the kernel.
--
-- Parts. src/core/main.c reads the settings (src/core/config.c), opens the log (src/core/logger.c)
-- and hands each captured packet (src/packet/capture.c, parsed by src/packet/parser.c) to
-- src/detection/analyzer.c, which asks the detectors of src/detection for a verdict; those keep
-- their connections in src/storage/lru_cache.c over src/storage/hashtable.c. A second thread drops
-- what is expired. src/filter/firewall.c keeps the blocked addresses in the set of
-- src/storage/ipset.c, src/api runs two servers, and ebpf/xdp_filter.c filters the frames before any
-- of this by maps that the kernel holds.
--
-- Files.
--   Base       shared names, the lists and words of C, `Run` for code that can fault, `bit_and`
--   Types      include/common.h: verdicts, attacks, statistics, settings
--   Addr       ip_addr_t of include/common.h, ip_addr_compare of src/core/logger.c, and the word
--              that the hashes of src/storage/ipset.c and others start from. Addr/Text is the text
--              of addresses, of src/core/logger.c
--   Logger     src/core/logger.c, with its lock and its rotation
--   Ipset      src/storage/ipset.c; each function carries the name of the C function without its
--              prefix, and `insert`, `delete`, `insert_range`, `wipe`, `purge` are the bodies under
--              the lock. Ipset/Cidr is ip_in_cidr; Ipset/Text is
--              ipset_add_cidr, Ipset/Files the load, the save and the destruction; the other
--              children hold the laws
--   Packet     packet_t of include/common.h, packet_is_fragment and packet_is_malformed of
--              src/packet/capture.c
--              Packet/Parser and Packet/Http are src/packet/parser.c; the string functions of C are
--              recursions on the bytes behind a pointer, `strdup` and `atoi` are parameters
--   Conn       src/storage/hashtable.c: the hash and the comparison of its keys. Conn/Heap holds the
--              entries of connections in memory, Conn/Reason what a run over them leaves, and
--              Conn/Table is the table itself, with hashtable_foreach in Conn/Table/Foreach
--   Lru        src/storage/lru_cache.c. Lru/Links, Lru/Order and Lru/Valid build the valid states of a
--              cache, an order of use that the links and the table agree on; Lru/DoubleFree is the
--              second `free` of an entry
--   Protect    src/detection: Watch is the state that a detector sees, Udp is udp_protect.c, Icmp is
--              icmp_protect.c, Http is http_protect.c, Tcp is tcp_protect.c: the branches on the flags,
--              and in Tcp/Analyze the analysis, which looks a connection up in the cache
--   RateLimit  src/filter/ratelimit.c: Window is the sliding window, with its cells, the history that
--              it stands for and the sums; Limiter is the rate limiter, and
--              Limiter/Destroy its end
--   Settings   src/core/config.c: Settings/Parse reads what the JSON library, a parameter, makes of
--              the file; Settings/Thresholds is the threshold that it does not read
--   Firewall   src/filter/firewall.c, with the commands for the kernel as data
--   Analyzer   src/detection/analyzer.c: the table of address statistics; Analyzer/Process is the way
--              of a packet through the lists, the detectors and the reputation, Analyzer/Classify the
--              classification, Analyzer/Baseline the entropy and the baseline, and Analyzer/Handler is
--              packet_handler of src/core/main.c
--   Capture    src/packet/capture.c around the parser
--   Geoip      src/geoip/geoip.c
--   Ebpf       src/filter/ebpf_loader.c
--   Server     src/api/rest_server.c and src/api/websocket.c
--   Main       src/core/main.c: the context, its threads, and the events while the program captures.
--              Main/State holds the objects of `main` and the answers of the system, Main/Program the
--              order of its start, Main/Work its servers, its work and its end; Main/Idle,
--              Main/Stuck, Main/Destroyed, Main/Ends, Main/Started and Main/Jammed are the laws
--   Xdp        ebpf/xdp_filter.c
--   Tests      concrete inputs, and the theorems applied to them
--
-- Conventions. Numbers are natural numbers, with the wrap of `uint32_t` and `uint64_t` written out
-- as a remainder. Times are seconds and not negative, and what `time(NULL)` returns is an argument,
-- as is the success of an allocation. The value of an IPv4 address is what `ntohl` makes of it, an
-- IPv6 address is its 16 bytes, and the host is little-endian, with the constants of Linux. A
-- pointer into a packet is an offset, `none` is NULL, and a read outside the buffer or through NULL
-- is a fault. NULL arguments that no caller passes are left out. Loops are recursions on a list or
-- on the number of buckets left, which is all that the loop runs. The loops over linked entries have
-- the number of allocations so far as fuel, which a chain or list without a cycle cannot exceed; a
-- run that is out of fuel, or in the endless loop of analyzer_get_ip_stats, is told apart. The loops
-- of the entropy and the baseline take any fuel, since they end at once or never. log_message and
-- logger_rotate call each other two levels deep, which is all that the lock lets them. Pointers to
-- entries are numbers that are not used again, so that a freed entry stays freed. Numbers of type
-- `double` are a parameter with the operations that the code uses. What happens while the program
-- captures is an explicit sequence of events: a frame, a round of a thread, a signal, each with the
-- messages that it logs. Where one of them blocks, the program is stuck, since `main` waits for each
-- thread.
--
-- Not modelled. Locks, but for the one of the log: an operation is one step, as its lock makes it, and
-- so is a packet or a round of the cleanup thread, which in the program can interleave. Which
-- messages the detectors write to the log, and what the threads do between one that is stuck and the next
-- message. The BPF maps belong to the kernel: a lookup is a function, and the
-- counters an array. libpcap, jansson, inet_pton, inet_ntop and the answers of the operating system
-- are parameters. Of src/core/main.c the command line, drop_privileges, and the lines that `main`
-- logs before the capture, which cannot fill the file. The lists of config_t, which src/core/config.c
-- leaves empty. The time stamps in the log, and the text that `vsnprintf` makes.
pub mod Base
pub mod Addr
pub mod Types
pub mod Logger
pub mod Ipset
pub mod Packet
pub mod Conn
pub mod Lru
pub mod Protect
pub mod Xdp
pub mod RateLimit
pub mod Firewall
pub mod Settings
pub mod Analyzer
pub mod Capture
pub mod Geoip
pub mod Ebpf
pub mod Server
pub mod Main
pub mod Tests
