-- ===== src/Lib.antt =====
-- Four game servers: Lab/Lab3/complete, three maps shared by a cluster of three nodes; warzone_go, an arena
-- for five players; and the earlier Lab/Lab1/complete, a duel, and Lab/Lab2/complete, an open world.
--
-- The parts of Lab3. A `World` (world/world.go) is one map with its players, monsters and treasures; it
-- answers the requests of players and steps on in the background. A `Store` (storage/store.go) keeps
-- accounts, hot sessions and checkpoints. A `Cluster` (cluster/cluster.go) holds the nodes, each of which hosts
-- worlds and replica snapshots, the sessions with their event lists, the owner and the replica of every
-- map, and the world boss; every request of a client is one method of the cluster, which calls the node
-- of the session's map and saves the outcome. protocol/message.go has the constants and the records.
--
-- The parts of warzone_go. A database (warzone_go/internal/database/database.go) keeps accounts and
-- statistics in two text files. The server (internal/server/server.go beside it) accepts connections, each
-- with a thread that goes through login, lobby and game (conn.go); the threads and a worker that drops
-- weapons share one arena (game.go), which writes the statistics when a round ends. Packets are framed by
-- internal/protocol/protocol.go.
--
-- The files.
--   Prelude: numbers, tests, lists, texts; Prelude/Maps: Go maps; Prelude/Sorting, TextOrder and
--     Picking: the sorts and the loops that keep a best item.
--   Protocol, Messages: the constants, the records, and one constructor for each text of an event.
--   World/State, Grid, Maps: the types, the terrain helpers and the three built-in maps.
--   World/Place, Life, Spawn: `walkableForLocked` to `findSafePositionLocked`; falling and reviving;
--     `dropTreasureLocked`, `spawnNPCLocked`, `bootstrap` and `NewWorld`.
--   World/Move, Heal, Attack, Shop, Sessions: the requests, whole, `MovePlayer` to `RewardPlayer`.
--   World/Background, Snapshot: `BackgroundStep`; `Snapshot`, `CaptureCheckpoint`, `RestoreCheckpoint`.
--   World/Walkable, SpawnCells, Targets, Occupancy, Loot, HitPoints, BackgroundHitPoints, Effects,
--     Stuck, Collisions: proofs about these; World/Frames, Outcomes, Fights, BackgroundFrames: what
--     the operations leave alone and the ways in which they end.
--   Storage, Storage/Accounts: store.go, and the promises of its accounts.
--   Cluster/State, Nodes, Events, Persist, Views: the types, `NodeService`, the event lists, the saves
--     and the snapshots that clients receive.
--   Cluster/Accounts, Play, Switch, Boss, Failover, Ticks: `Login` to `Logout`; `Move` to `BuyItem`;
--     `SwitchMap`; `AttackBoss`; the failover and `ExecuteAdmin`; one round of each background loop.
--   Cluster/EventLists, BossFight, BossRequests, Routing, Requests, Entry, Succession,
--     Administration: proofs about these.
--   World/Tests, Storage/Tests, Cluster/Tests: the theorems at the small inputs of World/Examples.
--   Warzone/Bytes, Decimal, Hash, Files: texts as bytes, `strconv.Atoi` and `%d`, `fnv1a64` and
--     `hashPassword`, the lines of a file and `strings.SplitN`.
--   Warzone/Database: database.go; Database/UserFile, StatsLine, StatsFile, Accounts: proofs
--     about it.
--   Warzone/State, Round, Arena, Broadcast: the server's state and game.go.
--   Warzone/Packets, Conn: how packets are read, and `connThread`; Loops, System: server.go, and the
--     states that its threads can reach; Wire: the packets of the client's client.go.
--   Warzone/Steps, Ranges, Bounds, Running: what every step keeps of the slots, the weapons and the
--     round; Frames, Seats, Leaving, Threads, Seating: who sits in the slots; Changes: lemmas on lists.
--   Lab1/Game: game/game.go; Lab1/Actions, Rules, Duration: proofs about it.
--   Lab2/World: world/world.go; Lab2/Rules, Reach, Targets, Strikes: proofs about it.
--   Warzone/Tests, Lab1/Tests, Lab2/Tests: the theorems at concrete inputs.
--
-- How the code of Lab3 is read. A method on a struct behind a lock is a function from the state to the new
-- state and its answer; the handlers of the cluster run as single steps, so the moments between the lock
-- regions of one handler, at which another could run, are left out. A Go map is an association list
-- in the order in which a range over it runs, and the theorems hold of every order. Hit points, attack,
-- counters and versions, which the code keeps from being negative, are natural numbers: `hp -= d` and
-- the test `hp <= 0` become a subtraction that stops at zero and a test for zero; they do not wrap.
-- Coordinates and scores are integers. A handler reads the clock once, in nanoseconds; the zero time is
-- `none`. The random generator is some function of what it was asked for; `Intn(n)` is its answer
-- modulo `n`. The hash of passwords, the success of writing a file and of opening a port, and the world
-- that `NewWorld` builds for a map of a node are arguments.
--
-- How the code of warzone_go is read. A text is a list of bytes, a file is its bytes or missing. The
-- arrays over the game slots are one list of slots. A step of a connection's thread reads one packet from
-- all that its peer sends before it closes, and is atomic; time, random numbers and the success of
-- writing and sending are arguments. Coordinates are integers. Health, which the code sets to
-- zero when it would fall below, is a natural number. The hash wraps at 2 ^ 64, and the counters of the statistics at 64 bits. `SendPacket` of the
-- server is the value that it sends, without the bytes.
--
-- How Lab1 and Lab2 are read. The loop of a duel is a recursion over the requests that come in, `none` for
-- a lost connection. Coordinates are integers, hit points natural numbers. The open world is the list of its players in the order of a range over the map; its
-- operations are atomic, and the revival after five seconds is an operation of its own.
--
-- Bounds. The loop that tops up the monsters runs on fuel, a round for each monster there is or should
-- be. The two loops with which a world starts run on fuel that the caller gives, and answer `none`
-- while they run: in the code they do not end on a map without an open cell.
--
-- Not modelled: the connections and the JSON messages of the labs, the JSON in Lab3's files (a file holds a
-- value), the terminal clients, the accept loops of the labs, the tool that resets Lab3's data, the test
-- runners, the students' copies of the programs, and the C++ version of the arena.
pub mod Prelude
pub mod Protocol
pub mod Messages
pub mod World
pub mod Storage
pub mod Cluster
pub mod Warzone
pub mod Lab1
pub mod Lab2
