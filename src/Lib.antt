-- ===== src/Lib.antt =====
-- A verification library for ccevents, a library of event sources in C: the files of src/ that
-- implement it, function by function, one of its demos, and what makes them correct.
--
-- The program. A client sets up event sources (file descriptors, tasks, timers and signals), enqueues
-- them in groups, and groups in a loop. Entering the loop enters its groups in turn; entering a group
-- tries to serve one event of each of its sources in turn, until a watermark is reached or an end is
-- asked for. Queues are doubly linked rings of nodes that are embedded in the sources and groups. Time
-- values and timeouts give the expiration of a source. Errors are exceptional conditions, which exit to
-- the `cce_location_t` of a caller.
--
-- Which file models what:
--   Base, Base/Tests, Base/Lists, Base/Int: names, tests, lists and integers that the others share.
--   Outcome: how a call of the timeval and timeout functions ends, and the C type `long` of 64 bits,
--     whose overflow is an outcome of its own.
--   Timeval: src/ccevents-timevals.c. Timeval/Meaning says what a time stands for, Timeval/Arithmetic
--     is on sums and differences, Timeval/Order on comparisons.
--   Timeout: src/ccevents-timeouts.c. Timeout/Levels has the three steps of the normalisation,
--     Timeout/Meaning what they come to, Timeout/Start the expiration of a started timeout.
--   Conditions: src/ccevents-conditions.c and src/ccevents-core.c. `cce_is_condition` and the root
--     descriptor are parameters.
--   Memory: the structs of nodes and queues of src/ccevents.h at their addresses. A command faults at
--     an access through NULL.
--   Queue: src/ccevents-queues.c and the queue inspectors of src/ccevents.h. `Queue.Holds.Holds h q xs`
--     is the invariant: in the memory `h` the queue at `q` holds the nodes `xs`, the current one first.
--     Queue/Ring is on rings of addresses; Queue/Init, Enqueue, Advance, Dequeue, Itself and Inspect are each
--     on one operation, and Queue/Frame is on what they leave alone.
--     Queue/Sequences has operations on a list, which Queue/Refinement shows sequences of calls to refine.
--   World: the structs of sources, groups and loops, the flags of the signals, and programs over
--     them. A program returns, exits to its location, faults, or runs out of fuel. `Env` has the
--     functions of a client and of other libraries: callbacks, `cce_sys_select` and the handlers of
--     ccexceptions, which may change the whole world, the times of `gettimeofday`, the signals that the
--     kernel delivers, those that `sigaction` accepts, and the bounds NSIG and FD_SETSIZE.
--     World/Rules has rules for programs and the contract that theorems ask of these functions.
--   Signal: the BUB API of src/ccevents-sources-signal.c. Signal/Flags is on the flags, and
--     Signal/Registration on initialisation and finalisation.
--   Source: the event sources of every kind, src/ccevents-sources-*.c. Source/Events is on what one event
--     of any source keeps, Source/Setup on initialisation and setters, Source/Expiry on when a source has
--     expired, and Source/Kinds, Inquired and Timed on the events of signal sources, of those that ask an
--     inquirer, and of timers and others with an expiration time.
--   Group: src/ccevents-groups.c. Group/Enter is on the end of a group's rounds, Group/Rounds on the
--     order in which sources are served, Group/Final on finalisation.
--   Loop: src/ccevents-loops.c. Loop/Enter is on what a loop keeps, Loop/Rounds on the order of its
--     groups and on its end, Loop/Final on finalisation.
--   Demo: the program demos/processes-communicating-through-pipes.c, a client of the library. `System`
--     of Demo/System has what it calls elsewhere: system calls, and the handlers of ccexceptions.
--     Demo/Messages reads and writes a message, Demo/Master and Demo/Slave have the state and the event
--     handlers of the parent and of the child, and Demo/Processes the rest, from `main` on. In Demo/Master
--     and Demo/Slave, Start is on the initialisation, Diagram, Turns and Status on the states, and Leaving
--     on the end and on errors. Demo/Dialogue has both processes as a step relation; its children go from
--     one event of one source (Events, Parent, Child) to the phases of the dialogue (Phases, ParentTurns,
--     ChildTurns) and to whole runs (Beginning, Invariant, Liveness). Demo/Setup, Pair and Station are on
--     the sources and queues that both processes have, Demo/Transfer on partial messages, Demo/Allocation on
--     the making of the pipes, Demo/Failures on `main` when it fails. Demo/Exit, Reset, BrokenPipe and
--     ParentProcess follow the parent through its loop, its group and its first event, when it cannot
--     write, and Demo/Unreadable and ChildProcess the child, when it cannot read, to their end, which
--     Demo/Cleanup is on.
--   The modules called Tests have runs of the definitions and the theorems at concrete inputs; those
--   called Samples have the inputs.
--
-- How they interact. A group is asked to leave through its own flag or through that of the loop which
-- its node is enqueued in. Both ask the queue functions for the current node and advance the queue before
-- the node is served, since its callbacks may take it out of the queue.
--
-- Bounds and fuel. `size_t` counts wrap at 2 ^ 64, and a queue has fewer nodes than that. The rounds of
-- a group, of a loop and of their finalisation are counted by fuel. A group needs more fuel than its
-- watermark, and a finalisation more than there are sources or groups. A loop may run for ever: its
-- theorems hold for every number of rounds.
--
-- A node and the struct that begins with it have one address, and so have a group or a loop and the
-- queue in it: the offset of the queue is left out. A signal is delivered between the calls that
-- unblock and block the signals, where the source lets it arrive, and then sets its flag if the handler
-- is registered for it; a signal whose default action ends the process is left out. A pointer to a
-- function that was not set, and a descriptor that an `fd_set` has no bit for, are a fault.
--
-- The two processes of the demo have a world each; what is in the pipes is common to both, and only the
-- functions of `System` and of `Env` read or write it. `Kernel` of Demo/Dialogue says what the theorems
-- on the dialogue ask of them: what is in a pipe can be read and is then gone, and a short message is
-- written whole to an empty pipe. The members of the state of a process have the addresses after that of
-- its loop. The loop that writes a message runs on fuel; one round is enough for this
-- kernel, and for one that cannot write at all.
--
-- Not modelled: the version numbers, which the build generates, the debugging messages, the cast
-- macros, the tests, and what the demo prints.
pub mod Base
pub mod Outcome
pub mod Timeval
pub mod Timeout
pub mod Conditions
pub mod Memory
pub mod Queue
pub mod World
pub mod Signal
pub mod Source
pub mod Group
pub mod Loop
pub mod Demo
