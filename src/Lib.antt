-- ===== src/Lib.antt =====
-- The safety core of the robot: who may move, and what reaches the drives.
--
-- Parts and how they interact
--   robot_safety keeps, for each group of axes, a session state (Stopped, Armed, Running, Fault)
--   and an epoch. Device reports, events and expired evidence revoke sessions; a controller writes
--   only while `permits` answers true for its group and epoch. Below it the CANopen master has a
--   coordinator with a mode of the whole system and an intent for each axis, and each drive has a
--   CiA 402 machine that filters the target of every cycle. Under ROS 1 one coordinator stands
--   over the CANopen master and the CAN driver and passes each request on to both. A TCP server
--   exchanges lines with one remote client.
--
-- Files and code
--   Base/      what the parts share: Boolean tests, integers, name-ordered maps and sets (std::map
--              and std::set), and results. `Domain × Result A` is a call that may throw and keeps
--              the changes that it made before.
--   Safety/    robot_safety/include/robot_safety/domain.hpp and robot_safety/src/domain.cpp.
--              Types is the data; Scope is scope, conditionSatisfied and restrictions; Propagate is
--              refreshGroups, revoke, expireOwner and propagate; Setup is configure and
--              registerWriter; Reports is the device reports, conditions, events and acknowledge;
--              Sessions is arm, run, halt, permits, the global stop and the owner lease; Legacy is
--              the whole-vehicle interface; Calls is the public interface as one data type with
--              `step`. Freshness is include/robot_safety/freshness.hpp, Session axis_session.hpp.
--              Evolution and the files below Scope, Propagate, Calls and Freshness hold proofs.
--   Cia402/    reference/ros1/Eyou_Canopen_Master/src/cia402_state_machine.cpp with its headers:
--              Types is the codes and the members, Machine is Update and the setters, Gate and Limits proofs.
--   Canopen/   reference/ros1/Eyou_Canopen_Master: Shared is src/shared_state.cpp, Coordinator and
--              Requests are src/operational_coordinator.cpp, Startup is
--              include/canopen_hw/canopen_startup_sequence.hpp; Calls is every call on the
--              coordinator as one data type with `handle`, and the proofs about it; Lifecycle is
--              src/lifecycle_manager.cpp; Protocol is src/cia402_protocol.cpp, Axis is
--              src/axis_logic.cpp with the bus and the health counters, SdoQueue is
--              include/canopen_hw/sdo_single_flight.hpp, Pdo is src/pdo_mapping.cpp (its child
--              Reader the asynchronous reader), Sdo is
--              src/sdo_accessor.cpp. Axis/Chain joins the axis logic, the shared state and the
--              coordinator.
--   Hybrid/    reference/ros1/Eyou_ROS1_Master/src: hybrid_operational_coordinator.cpp;
--              AutoStart is hybrid_auto_startup.cpp and the init sequence of
--              hybrid_service_gateway.cpp, Router is hybrid_mode_router.cpp (its
--              child Services the handlers); Sides has the canopen
--              coordinator as one of the two backends.
--   Bridge/    reference/ros1/tcp_bridge/src/tcp_server.cpp: Server is its handlers, Steps what can
--              happen to it, Writes and Frames the proofs on its queue and its framing.
--   Tests/     concrete runs.
--
-- Choices
--   A locked section is one step, so a history of calls from any threads is a list of calls. The
--   clock is an argument: one reading for each locked section. Texts are native strings, maps are
--   lists in key order, uint64_t counters and epochs wrap at 2 ^ 64.
--   The `while (changed)` of scope runs on fuel, one more round than there are associations; the
--   theorem on it shows that this is enough, since every round but the last adds a group that some
--   association depends on.
--   The coordinator's hooks into the master (MasterOps) are functions on the shared state, which
--   the CAN thread may change meanwhile. RequestRecover's wait is given the feedbacks that it reads
--   before its deadline and the one that it reads at it. A request of the coordinator is one step;
--   shared_state_ is not null.
--   A cycle of the axis logic returns its bus writes as a list, in order. The SDO queue and the PDO
--   reader are driven by events, which may come late or twice. The loops over PDO subindices count
--   in a uint8_t and have fuel 256, as many values as it takes: a loop that goes on longer repeats
--   itself. can_driver::OperationalCoordinator, the Lely dictionary, std::stoul and std::tolower
--   are parameters; of the first it is assumed that a request that it grants leaves it in the mode
--   that the request is for. Of Boost.Asio it is assumed that an accepted socket is a new object
--   and that a write is aborted only when its socket was closed.
--
-- Not modelled
--   diagnostics() and the process-wide registry of domains, the ROS nodes and services around
--   the parts, YAML and parameter reading, CanopenMaster, AxisDriver and the Lely library, the
--   hardware interfaces, and the arm, flipper, vision and simulation packages. The copies of other
--   projects' libraries are left out.
pub mod Base
pub mod Safety
pub mod Cia402
pub mod Canopen
pub mod Hybrid
pub mod Bridge
pub mod Tests
