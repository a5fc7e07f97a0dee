-- ===== src/Lib.antt =====
-- Verification of graphed-executors, the executors that run a compiled plan over its partitions.
--
-- The program reduces the partials of a plan along one fixed binary tree, whichever route runs
-- the tasks, shuffles and joins blocks by destination, and dispatches work through a window.
--
-- What models what:
-- - Prelude: shared names, Boolean tests, lists and Python's dict.
-- - Reduce models src/graphed_executors/local/_reduce.py. Reduce/Tree has _level_size and the
--   value of a node (level, pos); Reduce/Fold the fold by levels that is the reference;
--   Reduce/Plan has plan_tree and the run of its combines; Reduce/Lazy has LazyReducer (feed,
--   result) and lazy_tree_reduce; Reduce/Eager has tree_reduce and TreeProgress; Reduce/Chain
--   has running_fold, with Python's test for None on a value as a parameter.
-- - Kernels models src/graphed_executors/local/_shuffle_kernels.py: Kernels/Assign has assign,
--   Kernels/Coalesce has coalesce_task, Kernels/Budget has join_with_budget. The shuffle backend
--   of graphed.core and sha256 are the parameter Kernels/Backend.
-- - Kernels/Join and Kernels/Tally have the joins of a destination and of a probe block, and
--   JoinTally.
-- - Kernels/Gather has the fetches of stage2_gather, _spill_node, _spill_resident and
--   _reassemble; a spill file is named by its node and its sequence number. Kernels/Stage2 has
--   its outer loops, _blocks_by_holder and _pull_holder.
-- - Tasks models src/graphed_executors/common/tasks_engine.py: Tasks/Graph has the tasks and
--   their tiers, Tasks/Repartition _repartition, Tasks/Join _join. A future is the value of its
--   task; the sites of the tasks are a parameter.
-- - Peer models src/graphed_executors/local/_peer_tree.py: Peer/Bounds has make_bounds and
--   worker_of, Peer/Reducer has PeerReducer and run_peer_worker, with what a worker keeps in
--   Peer/Reducer/Kept, Peer/Driver collect_peer_root, Peer/Control PeerControl, Peer/Overlay the
--   lifelines and the edges of the reduction. What a worker sends is a list of messages, what it
--   receives another.
-- - Peer/Actor models slice_items and _PeerActor of src/graphed_executors/local/_peer.py: what a
--   worker is told and sends, its steals and its run control. Peer/System has all workers and
--   their messages as a step relation.
-- - Submit models src/graphed_executors/submit/engine.py: Submit/Fixed has _run_fixed,
--   Submit/Adaptive _run_adaptive, Submit/Windowed _run_adaptive_windowed with _completions,
--   Submit/Stages _run_stages with its settle, Submit/Keys the keys of the tasks, Submit/Futures
--   what they share. A future of the backend is what its task leads to, and the done queue is
--   the list of the futures that it gives. The split and pick of graphed.shuffle, a plan's
--   process, its combine, next tasks and stop rule are parameters. A pick always finds its
--   slice; it runs in a task beside the gather or on the driver, by the edge.
-- - Submit/Varint models _varint of src/graphed_executors/submit/services.py, a byte being a
--   number.
-- - Dask/Plane models the worker plugin of src/graphed_executors/dask_backend/transport.py: the
--   inbox, the blocks and the epochs that it holds. A pull is a step up to its await and a step
--   after it, so that pulls may overlap.
-- - Window models src/graphed_executors/_window.py and _fill of
--   src/graphed_executors/submit/engine.py. A poll of the control is an entry of a list of the
--   states it sees.
-- - PlanQueue models src/graphed_executors/_plan_queue.py as a step relation, with the drivers
--   that a close has let go and that still run.
-- - Examples has concrete runs.
--
-- Fuel: LazyReducer.feed has a round for each level, and n + 1 rounds are enough for n leaves;
-- PeerReducer.settle too; plan_tree needs at most n levels; join_with_budget has at most as many
-- rounds as there are probe rows and halvings of the first chunk. The theorems show that these
-- are enough. tree_reduce fires no more combines at a leaf than there are, and the replay of the
-- reduction hands off at most one node for each leaf and level.
--
-- A plan's combine does not fail, except in the fixed runs of Submit/Fixed, where a combine task
-- raises what it raises.
--
-- Not modelled: process pools, sockets and HTTP servers, the parsl and HTCondor backends, the
-- dask client, timing, and the store's directories, which are dicts by content address here.
pub mod Prelude
pub mod Reduce
pub mod Kernels
pub mod Tasks
pub mod Peer
pub mod Submit
pub mod Dask
pub mod Window
pub mod PlanQueue
pub mod Examples
