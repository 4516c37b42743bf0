-- ===== src/Lib.antt =====
-- Models of the programs of cpp-examples, and theorems about them.
--
-- The repository is a collection of separate examples; no program calls another. Each tree of
-- modules below models one of them, function by function. What the examples take from elsewhere
-- (floating point, sockets, threads, heap memory) is an argument of the model or an explicit state.
--
-- Prelude: shared names; Boolean tests and lists over the native numbers, and the integers.
--
-- Json: middleware/src/nonworking_json.cpp. `JsonValue` is a data type, with `JsonArray` and
-- `JsonObject` for its vector and its map (a map is the list of its entries by rising keys). A
-- member function of `JsonParser` is a function on a cursor, the position and the bytes that are
-- left, that returns a value and a cursor or throws; the messages of exceptions keep the parts that
-- vary. Bytes are numbers below 256 in the C locale. `std::stoll` and `std::to_string(long long)`
-- are modelled; `double`, `std::stod` and `std::to_string(double)` are the interface `DoubleOps`.
-- `parse_value` and the loops of `parse_array` and `parse_object` spend a unit of fuel for each
-- call; `parse` gives 2 * length + 2, since a value that is read is not empty and each call below
-- it spends at most two units before a byte is consumed. Json.Copies has the copies and the move of
-- `JsonValue` on its own data type, with the null pointers that a move leaves.
--
-- Memory: a block of memory as its bytes, and `memcpy` with a check of the bounds.
--
-- Fifo: cjunk/ringBuffer.h. The struct that `DeclareFifo(T, N)` makes is the record `Fifo`, its five
-- functions are functions of `N`, and `T` is any type. A distance of the indices that `int` does not
-- hold, which N up to 2 ^ 30 excludes, and an access behind the end of `data` make the run fail.
--
-- ByteSwap: the macros `byteswap_16` and `byteswap_32` of the same file, on 32 bits; Prelude.Bits has
-- the arithmetic of the bitwise operations.
--
-- PracticeQueue: cjunk/practice/queue.h, function by function, on the bytes of `pDataArray`; `malloc`
-- is an argument of the two functions that allocate. Indices wrap at 2 ^ 16 where the source assigns
-- to `uint16_t`; a division by zero, a product that `int` does not hold and an access out of bounds
-- make the run fail.
--
-- SendFile: cjunk/practice/sendFile.cc. A wrapper object is its descriptor; constructors, destructors
-- and `main` are programs over a state of the system that continue, end in `exit(1)` or are
-- undefined. The system calls are the parameter `System`, as are the bytes of `addr_` that no
-- constructor sets; `Closes` states what POSIX says of `close`. When a `std::vector` takes new
-- storage is a parameter.
--
-- StandardInput: cjunk/practice/asyncStdin.cc. `main` and `inputCharTask` are steps on one state that
-- interleave; a step is what a thread does under the mutex or between two accesses to what is shared.
-- `pushed` and `printed` record the bytes that went in and out.
--
-- SmallString: `SmallString` of cjunk/practice/smallString.cc, as the list of its eight bytes.
--
-- NetworkStream: `NetworkVideoStreamObservable` of cjunk/practice/networkframeStream.cpp. An object,
-- its reading and its writing thread and its owner are one state, and a schedule is the list of the
-- events of the three. The flags are plain `bool`; a schedule stands for a run without a data race.
--
-- Radio: cjunk/swradio/radio.cpp. The device is a parameter; `buffer_count` may start with any value.
--
-- Real: floating-point numbers and the functions of <cmath> as an interface without laws. Where a
-- theorem needs laws of them it takes them as hypotheses, as `Angles` of Fourier.Degrees does.
--
-- Perceptron: cjunk/practice/perceptron.cc, over such an interface; the random weights are arguments.
--
-- ParticleFilter: cjunk/practice/geoParticleFilter.cc. The task of a future runs at its launch, which
-- is right up to the first `get` on a future that is not valid, where the run is undefined.
--
-- AntColony: the model of cities and one ant of cjunk/practice/antColonyOptimization.cc; shuffles and
-- random numbers are arguments, and an index out of bounds makes the run fail.
--
-- CircularQueue: cjunk/practice/circularqueue.cc. As one thread sees it, a call on a semaphore without
-- permits blocks. With a producer and a consumer, a run is a list of turns, and in a turn the thread
-- does one atomic operation, one access to the data or one call on a semaphore; the flag `lost` says
-- that a full queue was written over. What `m_sem_full.post()` does to the count is a parameter, as
-- `std::counting_semaphore` has no such member. The largest count of a semaphore is a parameter for one
-- thread, whose release beyond it is undefined, and is not modelled in the interleavings.
--
-- Promise: cjunk/practice/chainablePromise.cc. Promises are trees, as each owns copies of its
-- children; a run is the list of the calls that it makes.
--
-- SmallTree: the nodes and `serialize` of cjunk/trivialJson/json.hpp and cjunk/trivialJson/json.cpp.
--
-- MaxProfit: cjunk/practice/financialAnalysis.cc. The number of prices is narrowed to `int`, and a
-- difference that `int` does not hold is undefined.
--
-- SmallMemory: `JsonNode` of cjunk/trivialJson/SmallMemoryModel.cpp. A node is a tree of values, as
-- every container owns what it holds. The argument of an assignment is a node of its own or the path
-- to one inside the assigned node; what reads it after its destruction is undefined.
--
-- Fourier: the class `FFT` of middleware/src/stupid_fft.h, with FFTW and the functions of <complex> as
-- parameters; to execute a plan that FFTW did not give is undefined.
--
-- SerialDump: middleware/src/dump_serial.cpp. `main` has the results of `open` and `read` as arguments;
-- what is printed of the buffer goes up to a zero byte, or it is undefined. SerialDump.Port is
-- `configPort`, with the constants and the calls of <termios.h> as parameters.
--
-- ContainerSource: `container_source` of cjunk/tests.cpp; the calls of `read` are a list of sizes.
--
-- Not modelled are the programs that only call libraries (graphics, sockets, websockets, the Kalman
-- filter of cjunk/practice/kalmanFilter.cc), generated code, programs that do not compile (the datagram
-- servers, cjunk/practice/websocketBase.cpp, the iterators of cjunk/practice/functional.cc, the filters
-- of cjunk/practice/motorcontrol.hpp), the reader, the writer and the decoder of
-- cjunk/practice/networkframeStream.cpp, and the registers of cjunk/practice/uartfifo.c, whose
-- addresses and flags no file defines.
pub mod Prelude
pub mod Memory
pub mod Json
pub mod Fifo
pub mod PracticeQueue
pub mod SendFile
pub mod StandardInput
pub mod SmallString
pub mod NetworkStream
pub mod Radio
pub mod Perceptron
pub mod CircularQueue
pub mod Promise
pub mod Real
pub mod ParticleFilter
pub mod AntColony
pub mod SmallTree
pub mod MaxProfit
pub mod ContainerSource
pub mod SmallMemory
pub mod Fourier
pub mod SerialDump
pub mod ByteSwap
